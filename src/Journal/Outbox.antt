-- ===== src/Journal/Outbox.antt =====
-- The outbox: x402/outbox.go. The sink's answers and the outcomes of the journal's writes are
-- parameters, and a pass returns what it published.
use stablecoin_x402_gateway.Base.{String, Bool, List, [], ◌∷◌, if◌then◌else◌}
use stablecoin_x402_gateway.Base.Int.{ℤ, pos, leb_ℤ}
use stablecoin_x402_gateway.Journal.Records.{JournalEntry}
use stablecoin_x402_gateway.Journal.File.{Journal, WriteOutcome, mark_published, unpublished}

-- Nanoseconds.
unfoldable pub interval : ℤ → ℤ
interval d = if leb_ℤ d (pos 0) then pos 1_000_000_000 else d

unfoldable pub drain_entries :
    (JournalEntry → Bool)
    → (String → WriteOutcome)
    → List JournalEntry
    → Journal
    → List JournalEntry × Journal
drain_entries sink outcome [] j = ([], j)
drain_entries sink outcome (e ∷ es) j =
    let (marked, after) = mark_published e.id (outcome e.id) j in
    let (sent, last) = drain_entries sink outcome es after in
    if sink e then (if marked then (e ∷ sent, last) else (e ∷ [], after)) else ([], j)

unfoldable pub drain :
    (JournalEntry → Bool) → (String → WriteOutcome) → Journal → List JournalEntry × Journal
drain sink outcome j = drain_entries sink outcome (unpublished j) j
