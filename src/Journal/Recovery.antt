-- ===== src/Journal/Recovery.antt =====
-- What a replay of the journal's file restores.
use stablecoin_x402_gateway.Base.{
  ℕ, ◌≡◌, refl, sym, ap, ◌∙◌, String, Bool, true, false, none, some, List, [], ◌∷◌, ◌++◌, inl, inr,
  Option-cases, Bool-cases, All, string_eq, arith,
}
use mathlib.Core.Path.{subst}
use stablecoin_x402_gateway.Base.Dict.{lookup}
use stablecoin_x402_gateway.Journal.Records.{JournalEntry}
use stablecoin_x402_gateway.Journal.File.{
  Line, entry_line, marker_line, torn_line, JournalFile, Journal, WriteOutcome, written,
  nothing_written, cut_short, not_synced, new_journal, record_entry, replay_line, replay,
  open_journal, put_line, write_line, after_entry, after_marker, append, is_published,
  mark_published,
}

replay-++ : (xs ys : List Line) (j : Journal) → replay (xs ++ ys) j ≡ replay ys (replay xs j)
unfolding replay
replay-++ [] ys j = refl
replay-++ (x ∷ xs) ys j = replay-++ xs ys (replay_line x j)

pub replay_line-file :
    (line : Line) (file : JournalFile) (j : Journal)
    → replay_line line (record j { file = file }) ≡ record (replay_line line j) { file = file }
unfolding replay_line record_entry
replay_line-file (entry_line e) file j = elim (Option-cases (lookup e.id j.index)) [
  | inl new ↦ rw (record_entry, new) refl
  | inr (n, old) ↦ rw (record_entry, old) refl
]
replay_line-file (marker_line id) file j = refl
replay_line-file torn_line file j = refl

-- Replaying reads lines only: it does not look at the file that the journal holds.
replay-file :
    (lines : List Line) (file : JournalFile) (j : Journal)
    → replay lines (record j { file = file }) ≡ record (replay lines j) { file = file }
unfolding replay
replay-file [] file j = refl
replay-file (line ∷ lines) file j =
    ap (replay lines) (replay_line-file line file j) ∙ replay-file lines file (replay_line line j)

-- Opening a file whose last line is `line`.
pub open_lines :
    (lines : List Line) (line : Line) (old new : JournalFile)
    → replay (lines ++ line ∷ []) (new_journal new)
      ≡ replay_line line (record (replay lines (new_journal old)) { file = new })
unfolding replay
open_lines lines line old new =
    replay-++ lines (line ∷ []) (new_journal new)
    ∙ ap (replay_line line) (replay-file lines new (new_journal old))

pub open_journal-untorn :
    (file : JournalFile)
    → file.tail ≡ none
    → open_journal file ≡ replay file.lines (new_journal file)
unfolding open_journal
open_journal-untorn file e = rw (open_journal, e) refl

-- The journal in memory is what a replay of its file gives, and the file ends with a whole line.
pub record IsFaithful (j : Journal) : Type 0 where
  pub is_replay : j ≡ replay j.file.lines (new_journal j.file)
  pub is_whole : j.file.tail ≡ none

pub data Operation : Type 0 where
  append_entry : JournalEntry → Operation
  mark_entry : String → Operation

unfoldable pub perform : Operation → WriteOutcome → Journal → Bool × Journal
perform (append_entry e) outcome j = append e outcome j
perform (mark_entry id) outcome j = mark_published id outcome j

abbrev pub is_clean : WriteOutcome → Bool
is_clean written = true
is_clean nothing_written = true
is_clean _ = false

unfoldable pub run : List (Operation × WriteOutcome) → Journal → Journal
unfolding perform
run [] j = j
run ((op, outcome) ∷ ops) j = run ops (perform op outcome j).1

put_line-whole :
    (line : Line) (file : JournalFile)
    → file.tail ≡ none
    → put_line line file ≡ record { lines = file.lines ++ line ∷ []; tail = none }
put_line-whole line file e = rw e refl

replayed-put_line :
    (line : Line) (j : Journal)
    → IsFaithful j
    → IsFaithful (replay_line line (record j { file = put_line line j.file }))
replayed-put_line line j h =
    subst (λ f. IsFaithful (replay_line line (record j { file = f })))
      (sym (put_line-whole line j.file h.is_whole))
      (subst IsFaithful (sym (replay_line-file line file j)) (record {
        is_replay = sym (
            open_lines j.file.lines line j.file file
            ∙ ap (λ k. replay_line line (record k { file = file })) (sym h.is_replay)
            ∙ replay_line-file line file j);
        is_whole = refl;
      }))
  where
    file : JournalFile
    file = record { lines = j.file.lines ++ line ∷ []; tail = none }

pub append-new :
    (e : JournalEntry) (outcome : WriteOutcome) (j : Journal)
    → lookup e.id j.index ≡ none
    → append e outcome j ≡ after_entry e (write_line (entry_line e) outcome j.file) j
unfolding append
append-new e outcome j new = rw (append, new) refl

pub append-old :
    (e : JournalEntry) (outcome : WriteOutcome) (j : Journal) (n : ℕ)
    → lookup e.id j.index ≡ some n
    → append e outcome j ≡ (true, j)
unfolding append
append-old e outcome j n old = rw (append, old) refl

append-IsFaithful :
    (e : JournalEntry) (outcome : WriteOutcome) (j : Journal)
    → is_clean outcome ≡ true
    → IsFaithful j
    → IsFaithful (append e outcome j).1
unfolding replay_line write_line after_entry
append-IsFaithful e outcome j clean h = elim (Option-cases (lookup e.id j.index)) [
  | inr (n, old) ↦ subst IsFaithful (sym (ap (λ r. r.1) (append-old e outcome j n old))) h
  | inl new ↦ subst IsFaithful (sym (ap (λ r. r.1) (append-new e outcome j new))) (go outcome clean)
]
  where
    go :
        (o : WriteOutcome)
        → is_clean o ≡ true
        → IsFaithful (after_entry e (write_line (entry_line e) o j.file) j).1
    go written c = replayed-put_line (entry_line e) j h
    go nothing_written c = h
    go not_synced c = ground arith
    go (cut_short whole) c = ground arith

mark_published-IsFaithful :
    (id : String) (outcome : WriteOutcome) (j : Journal)
    → is_clean outcome ≡ true
    → IsFaithful j
    → IsFaithful (mark_published id outcome j).1
unfolding replay_line write_line mark_published after_marker
mark_published-IsFaithful id outcome j clean h = elim (Bool-cases (is_published id j)) [
  | inl old ↦ rw (mark_published, old) h
  | inr new ↦ rw (mark_published, new) (go outcome clean)
]
  where
    go :
        (o : WriteOutcome)
        → is_clean o ≡ true
        → IsFaithful (after_marker id (write_line (marker_line id) o j.file) j).1
    go written c = replayed-put_line (marker_line id) j h
    go nothing_written c = h
    go not_synced c = ground arith
    go (cut_short whole) c = ground arith

run-IsFaithful :
    (ops : List (Operation × WriteOutcome)) (j : Journal)
    → All (λ (p : Operation × WriteOutcome). is_clean p.1 ≡ true) ops
    → IsFaithful j
    → IsFaithful (run ops j)
unfolding run perform
run-IsFaithful [] j clean h = h
run-IsFaithful ((append_entry e, outcome) ∷ ops) j clean h =
    run-IsFaithful ops _ clean.1 (append-IsFaithful e outcome j clean.0 h)
run-IsFaithful ((mark_entry id, outcome) ∷ ops) j clean h =
    run-IsFaithful ops _ clean.1 (mark_published-IsFaithful id outcome j clean.0 h)

-- Opening the file again after any operations whose writes succeed or write nothing gives the
-- journal that was in memory: its entries in order, its index and its markers.
pub open_journal-run :
    (ops : List (Operation × WriteOutcome)) (j : Journal)
    → All (λ (p : Operation × WriteOutcome). is_clean p.1 ≡ true) ops
    → IsFaithful j
    → open_journal (run ops j).file ≡ run ops j
open_journal-run ops j clean h =
    let after = run-IsFaithful ops j clean h in
    open_journal-untorn (run ops j).file after.is_whole ∙ sym after.is_replay
