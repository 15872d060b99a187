-- ===== src/Tests/Journals.antt =====
-- The journal and the outbox on a concrete file.
use stablecoin_x402_gateway.Base.{
  ◌≡◌, refl, String, true, false, none, List, [], ◌∷◌, ◌++◌, string_eq,
}
use stablecoin_x402_gateway.Base.Int.{pos}
use stablecoin_x402_gateway.Base.Dict.{lookup, insert, erase}
use stablecoin_x402_gateway.Journal.{
  JournalEntry, JournalFile, Journal, torn_line, written, nothing_written, cut_short, new_journal,
  record_entry, replay_line, replay, open_journal, write_line, after_entry, after_marker, append,
  is_published, mark_published, select_unpublished, unpublished, drain, drain_entries,
}
use stablecoin_x402_gateway.Journal.Recovery.{
  IsFaithful, append_entry, mark_entry, run, perform, open_journal-run,
}
use stablecoin_x402_gateway.Journal.Crash.{append-cut_short, append-torn}
use stablecoin_x402_gateway.Journal.Delivery.{drain-prefix, drain-all}

-- The definitions that the runs compute with.
unfoldable journal_code : Unit {0}
unfolding record_entry replay_line replay open_journal write_line after_entry after_marker append
    is_published mark_published select_unpublished unpublished drain drain_entries run perform
    lookup insert erase
journal_code = tt

abbrev settlement : String → JournalEntry
settlement hash = record {
  id = hash;
  payer = "agent";
  amount = "40";
  tx_hash = hash;
  network = "local";
  at = pos 1_700_000_000;
  kind = "";
  receipt = none;
  decision = none;
  revocation = none;
}

abbrev empty_file : JournalFile
empty_file = record { lines = []; tail = none }

abbrev fresh : Journal
fresh = new_journal empty_file

fresh-IsFaithful : IsFaithful fresh
unfolding journal_code
fresh-IsFaithful = record { is_replay = refl; is_whole = refl }

abbrev with_a : Journal
with_a = (append (settlement "a") written fresh).1

with_a-IsFaithful : IsFaithful with_a
unfolding journal_code
with_a-IsFaithful = record { is_replay = refl; is_whole = refl }

abbrev busy : Journal
busy =
    run
      ((append_entry (settlement "a"), written)
        ∷ (append_entry (settlement "b"), nothing_written)
        ∷ (append_entry (settlement "b"), written)
        ∷ (mark_entry "a", written)
        ∷ [])
      fresh

open_journal-run_example : open_journal busy.file ≡ busy
unfolding journal_code
open_journal-run_example =
    open_journal-run
      ((append_entry (settlement "a"), written)
        ∷ (append_entry (settlement "b"), nothing_written)
        ∷ (append_entry (settlement "b"), written)
        ∷ (mark_entry "a", written)
        ∷ [])
      fresh (refl, (refl, (refl, (refl, tt)))) fresh-IsFaithful

-- The run of the example leaves entry b to publish.
unpublished-busy : unpublished busy ≡ settlement "b" ∷ []
unfolding journal_code
unpublished-busy = refl

append-cut_short_example :
    let reopened = open_journal (append (settlement "b") (cut_short false) with_a).1.file in
    (reopened.entries ≡ with_a.entries ++ []) × (reopened.published ≡ with_a.published)
unfolding journal_code
append-cut_short_example = append-cut_short (settlement "b") false with_a with_a-IsFaithful refl

-- Entry b is cut short, entry c is acknowledged and lost.
abbrev torn : Journal
torn = (append (settlement "b") (cut_short false) with_a).1

append-torn_example :
    ((append (settlement "c") written torn).0 ≡ true)
    × ((open_journal (append (settlement "c") written torn).1.file).entries
        ≡ (replay torn.file.lines (new_journal torn.file)).entries)
unfolding journal_code
append-torn_example = append-torn (settlement "c") torn_line torn refl refl

open_journal_without_c :
    (open_journal (append (settlement "c") written torn).1.file).entries ≡ settlement "a" ∷ []
unfolding journal_code
open_journal_without_c = refl

drain-prefix_example :
    (rest : List JournalEntry) × (unpublished busy
      ≡ (drain (λ e. false) (λ id. written) busy).0 ++ rest)
drain-prefix_example = drain-prefix (λ e. false) (λ id. written) busy

drain-all_example :
    ((drain (λ e. true) (λ id. written) busy).0 ≡ unpublished busy)
    × (unpublished (drain (λ e. true) (λ id. written) busy).1 ≡ [])
drain-all_example = drain-all (λ e. true) (λ id. written) (λ e. refl) (λ id. refl) busy
