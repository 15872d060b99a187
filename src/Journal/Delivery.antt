-- ===== src/Journal/Delivery.antt =====
-- What a pass of the outbox publishes.
use stablecoin_x402_gateway.Base.{
  ◌≡◌, refl, sym, ap, ◌∙◌, String, Bool, true, false, List, [], ◌∷◌, ◌++◌, inl, inr, Bool-cases,
  All, string_eq, beq_self, arith,
}
use mathlib.Core.Path.{subst}
use stablecoin_x402_gateway.Base.Dict.{lookup-insert}
use stablecoin_x402_gateway.Journal.Records.{JournalEntry}
use stablecoin_x402_gateway.Journal.File.{
  Journal, JournalFile, put_line, WriteOutcome, written, marker_line, write_line, mark_published,
  after_marker, is_published, select_unpublished, unpublished,
}
use stablecoin_x402_gateway.Journal.Outbox.{drain, drain_entries}

drain_entries-prefix :
    (sink : JournalEntry → Bool) (outcome : String → WriteOutcome) (es : List JournalEntry)
    (j : Journal)
    → (rest : List JournalEntry) × (es ≡ (drain_entries sink outcome es j).0 ++ rest)
unfolding drain_entries
drain_entries-prefix sink outcome [] j = ([], refl)
drain_entries-prefix sink outcome (e ∷ es) j = elim (Bool-cases (sink e)) [
  | inr refused ↦ (e ∷ es, rw refused refl)
  | inl taken ↦ elim (Bool-cases (mark_published e.id (outcome e.id) j).0) [
    | inr unmarked ↦ (es, rw (taken, unmarked) refl)
    | inl marked ↦
        let (rest, q) =
          drain_entries-prefix sink outcome es (mark_published e.id (outcome e.id) j).1 in
        (rest, rw (taken, marked) (ap (λ r. e ∷ r) q))
  ]
]

-- A pass publishes a prefix of the unpublished entries in journal order, however the sink and the
-- journal's writes answer: it never skips an entry.
pub drain-prefix :
    (sink : JournalEntry → Bool) (outcome : String → WriteOutcome) (j : Journal)
    → (rest : List JournalEntry) × (unpublished j ≡ (drain sink outcome j).0 ++ rest)
unfolding drain
drain-prefix sink outcome j = drain_entries-prefix sink outcome (unpublished j) j

is_published-after_marker :
    (id other : String) (r : Bool × JournalFile) (j : Journal)
    → is_published other j ≡ true
    → is_published other (after_marker id r j).1 ≡ true
unfolding is_published after_marker
is_published-after_marker id other (true, file) j h =
    ground (arith, lookup-insert id other true j.published)
is_published-after_marker id other (false, file) j h = h

-- What is published stays published.
mark_published-keeps :
    (id other : String) (outcome : WriteOutcome) (j : Journal)
    → is_published other j ≡ true
    → is_published other (mark_published id outcome j).1 ≡ true
unfolding mark_published
mark_published-keeps id other outcome j h = elim (Bool-cases (is_published id j)) [
  | inl old ↦ rw (mark_published, old) h
  | inr new ↦
      rw (mark_published, new)
        (is_published-after_marker id other (write_line (marker_line id) outcome j.file) j h)
]

is_published_marked :
    (id : String) (file : JournalFile) (j : Journal)
    → is_published id (after_marker id (true, file) j).1 ≡ true
unfolding is_published after_marker
is_published_marked id file j = ground (arith, lookup-insert id id true j.published, beq_self id)

mark_published-written :
    (id : String) (j : Journal)
    → ((mark_published id written j).0 ≡ true)
      × (is_published id (mark_published id written j).1 ≡ true)
unfolding mark_published write_line after_marker
mark_published-written id j = elim (Bool-cases (is_published id j)) [
  | inl old ↦ rw (mark_published, old) (refl, old)
  | inr new ↦
      rw (mark_published, new) (refl, is_published_marked id (put_line (marker_line id) j.file) j)
]

mark_published-entries :
    (id : String) (outcome : WriteOutcome) (j : Journal)
    → (mark_published id outcome j).1.entries ≡ j.entries
unfolding mark_published after_marker
mark_published-entries id outcome j = elim (Bool-cases (is_published id j)) [
  | inl old ↦ rw (mark_published, old) refl
  | inr new ↦ rw (mark_published, new) (go (write_line (marker_line id) outcome j.file))
]
  where
    go : (r : Bool × JournalFile) → (after_marker id r j).1.entries ≡ j.entries
    go (true, file) = refl
    go (false, file) = refl

AllPublished : Journal → List JournalEntry → Type 0
AllPublished j es = All (λ (e : JournalEntry). is_published e.id j ≡ true) es

Passed : List JournalEntry → Journal → List JournalEntry × Journal → Type 0
Passed es j r = (r.0 ≡ es) × AllPublished r.1 es × (r.1.entries ≡ j.entries)

-- A pass in which every publish and every write succeeds.
module _ (sink : JournalEntry → Bool) (outcome : String → WriteOutcome)
    (accepts : (e : JournalEntry) → sink e ≡ true)
    (writes : (id : String) → outcome id ≡ written) where
  marked : (e : JournalEntry) (j : Journal) → (mark_published e.id (outcome e.id) j).0 ≡ true
  marked e j = rw (writes e.id) (mark_published-written e.id j).0

  drain_entries-step :
      (e : JournalEntry) (es : List JournalEntry) (j : Journal)
      → let rest = drain_entries sink outcome es (mark_published e.id (outcome e.id) j).1 in
        drain_entries sink outcome (e ∷ es) j ≡ (e ∷ rest.0, rest.1)
  unfolding drain_entries
  drain_entries-step e es j = rw (accepts e, marked e j) refl

  drain_entries-keeps :
      (other : String) (es : List JournalEntry) (j : Journal)
      → is_published other j ≡ true
      → is_published other (drain_entries sink outcome es j).1 ≡ true
  unfolding drain_entries
  drain_entries-keeps other [] j h = h
  drain_entries-keeps other (e ∷ es) j h =
      rw (drain_entries-step e es j)
        (drain_entries-keeps other es _ (mark_published-keeps e.id other (outcome e.id) j h))

  drain_entries-Passed :
      (es : List JournalEntry) (j : Journal) → Passed es j (drain_entries sink outcome es j)
  unfolding drain_entries Passed AllPublished
  drain_entries-Passed [] j = (refl, tt, refl)
  drain_entries-Passed (e ∷ es) j =
      let after = (mark_published e.id (outcome e.id) j).1 in
      let (sent, published, entries) = drain_entries-Passed es after in
      let here : is_published e.id after ≡ true =
        rw (writes e.id) (mark_published-written e.id j).1 in
      subst (Passed (e ∷ es) j) (sym (drain_entries-step e es j)) (
        ap (λ r. e ∷ r) sent,
        (drain_entries-keeps e.id es after here, published),
        entries ∙ mark_published-entries e.id (outcome e.id) j,
      )

  selected_none :
      (es : List JournalEntry) (j k : Journal)
      → ((id : String) → is_published id j ≡ true → is_published id k ≡ true)
      → AllPublished k (select_unpublished j es)
      → select_unpublished k es ≡ []
  unfolding select_unpublished AllPublished
  selected_none [] j k keeps published = refl
  selected_none (e ∷ es) j k keeps published = elim (Bool-cases (is_published e.id j)) [
    | inl old ↦ ground (arith, keeps e.id old, selected_none es j k keeps)
    | inr new ↦ ground (arith, selected_none es j k keeps)
  ]

  -- A pass in which every publish and every write succeeds publishes all that was unpublished, in
  -- journal order, and leaves nothing unpublished.
  pub drain-all :
      (j : Journal)
      → ((drain sink outcome j).0 ≡ unpublished j) × (unpublished (drain sink outcome j).1 ≡ [])
  unfolding drain Passed unpublished
  drain-all j =
      let (sent, published, entries) = drain_entries-Passed (unpublished j) j in
      let last = (drain_entries sink outcome (unpublished j) j).1 in
      (
        sent,
        ap (select_unpublished last) entries
            ∙ selected_none j.entries j last (λ id h. drain_entries-keeps id (unpublished j) j h)
                published,
      )
