-- ===== src/Journal/Crash.antt =====
-- A write that is cut short, and what the next write does to it.
use stablecoin_x402_gateway.Base.{
  ◌≡◌, refl, sym, ap, ◌∙◌, Bool, true, false, none, some, List, [], ◌∷◌, ◌++◌, if◌then◌else◌,
  string_eq,
}
use stablecoin_x402_gateway.Base.Dict.{lookup}
use stablecoin_x402_gateway.Journal.Records.{JournalEntry}
use stablecoin_x402_gateway.Journal.File.{
  Line, entry_line, torn_line, JournalFile, Journal, written, cut_short, new_journal, record_entry,
  replay_line, replay, open_journal, write_line, append, after_entry,
}
use stablecoin_x402_gateway.Journal.Recovery.{IsFaithful, open_lines, append-new, replay_line-file}

open_journal-torn :
    (lines : List Line) (part : Line) (old : JournalFile)
    → open_journal (record { lines = lines; tail = some part })
      ≡ replay_line part (record (replay lines (new_journal old)) {
        file = record { lines = lines; tail = some part };
      })
unfolding open_journal
open_journal-torn lines part old =
    open_lines lines part old (record { lines = lines; tail = some part })

part_of : Bool → JournalEntry → Line
part_of whole e = if whole then entry_line e else torn_line

cut_file : Bool → JournalEntry → Journal → JournalFile
cut_file whole e j = record { lines = j.file.lines; tail = some (part_of whole e) }

append-cut_file :
    (e : JournalEntry) (whole : Bool) (j : Journal)
    → IsFaithful j
    → lookup e.id j.index ≡ none
    → (append e (cut_short whole) j).1.file ≡ cut_file whole e j
unfolding write_line after_entry cut_file part_of
append-cut_file e whole j h new =
    ap (λ r. r.1.file) (append-new e (cut_short whole) j new) ∙ rw h.is_whole refl

replay_line-part :
    (e : JournalEntry) (whole : Bool) (j : Journal)
    → lookup e.id j.index ≡ none
    → ((replay_line (part_of whole e) j).entries ≡ j.entries ++ (if whole then e ∷ [] else []))
      × ((replay_line (part_of whole e) j).published ≡ j.published)
unfolding replay_line record_entry part_of
replay_line-part e true j new = rw (record_entry, new) (refl, refl)
replay_line-part e false j new = (++_nil j.entries, refl)
  where
    ++_nil : (es : List JournalEntry) → es ≡ es ++ []
    ++_nil [] = refl
    ++_nil (x ∷ es) = ap (λ r. x ∷ r) (++_nil es)

-- A crash in the middle of an append loses nothing that was acknowledged: the reopened journal has
-- all entries and markers from before, and the new entry only if its line was whole.
pub append-cut_short :
    (e : JournalEntry) (whole : Bool) (j : Journal)
    → IsFaithful j
    → lookup e.id j.index ≡ none
    → let reopened = open_journal (append e (cut_short whole) j).1.file in
      (reopened.entries ≡ j.entries ++ (if whole then e ∷ [] else []))
      × (reopened.published ≡ j.published)
unfolding cut_file
append-cut_short e whole j h new =
    let file = cut_file whole e j in
    let reopened : open_journal (append e (cut_short whole) j).1.file
        ≡ record (replay_line (part_of whole e) j) { file = file } =
      ap open_journal (append-cut_file e whole j h new)
      ∙ open_journal-torn j.file.lines (part_of whole e) j.file
      ∙ ap (λ k. replay_line (part_of whole e) (record k { file = file })) (sym h.is_replay)
      ∙ replay_line-file (part_of whole e) file j in
    let read = replay_line-part e whole j new in
    (ap (λ k. k.entries) reopened ∙ read.0, ap (λ k. k.published) reopened ∙ read.1)

append-acknowledged :
    (e : JournalEntry) (j : Journal) → lookup e.id j.index ≡ none → (append e written j).0 ≡ true
unfolding write_line after_entry
append-acknowledged e j new = ap (λ r. r.0) (append-new e written j new)

append-joined :
    (e : JournalEntry) (part : Line) (j : Journal)
    → j.file.tail ≡ some part
    → lookup e.id j.index ≡ none
    → (append e written j).1.file ≡ record { lines = j.file.lines ++ torn_line ∷ []; tail = none }
unfolding write_line after_entry record_entry
append-joined e part j torn new =
    ap (λ r. r.1.file) (append-new e written j new) ∙ rw (record_entry, new, torn) refl

-- An append to a file that ends with a line cut short reports success, but joins its line to that
-- one: after a restart the entry is gone.
pub append-torn :
    (e : JournalEntry) (part : Line) (j : Journal)
    → j.file.tail ≡ some part
    → lookup e.id j.index ≡ none
    → ((append e written j).0 ≡ true)
      × ((open_journal (append e written j).1.file).entries
          ≡ (replay j.file.lines (new_journal j.file)).entries)
unfolding open_journal replay_line
append-torn e part j torn new = (
  append-acknowledged e j new,
  ap (λ f. (open_journal f).entries) (append-joined e part j torn new)
      ∙ ap (λ (k : Journal). k.entries)
          (open_lines j.file.lines torn_line j.file
            (record { lines = j.file.lines ++ torn_line ∷ []; tail = none })),
)
