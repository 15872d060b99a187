-- ===== src/Session/Recorded.antt =====
-- The settlements that the gateway mirrors in memory stand in its journal: x402/gateway.go, with
-- the sessions of x402/session.go.
use stablecoin_x402_gateway.Base.{
  ◌≡◌, refl, sym, subst, String, Option, none, some, List, [], ◌∷◌, ◌++◌,
}
use stablecoin_x402_gateway.Journal.{Journal, JournalEntry}
use stablecoin_x402_gateway.Eth.{Eth}
use stablecoin_x402_gateway.Gateway.Defs.{
  Gateway, GatewayState, World, PaymentSession, SettlementRecord, append_where, journal_append,
}
use stablecoin_x402_gateway.Gateway.Preserve.{Preserved, Journals, journal_append-keeps}
use stablecoin_x402_gateway.Session.{Request, middleware}
use stablecoin_x402_gateway.Session.Preserve.{SessionsPreserved}
use stablecoin_x402_gateway.Session.Preserve.Requests.{middleware-preserves}

abbrev AreJournaled : Eth → Option Journal → List SettlementRecord → Type 0
AreJournaled eth j [] = Unit
AreJournaled eth j (r ∷ rs) = Journals (eth.hash_hex r.tx_hash) j × AreJournaled eth j rs

-- Each mirrored settlement has an entry under its transaction, where a journal is attached.
abbrev pub IsMirrored : Eth → GatewayState → Type 0
IsMirrored eth s = AreJournaled eth s.journal s.settlements

AreJournaled-keeps :
    (eth : Eth) (before after : Option Journal) (rs : List SettlementRecord)
    → ((id : String) → Journals id before → Journals id after)
    → AreJournaled eth before rs
    → AreJournaled eth after rs
AreJournaled-keeps eth before after [] keeps h = tt
AreJournaled-keeps eth before after (r ∷ rs) keeps h =
    (keeps _ h.0, AreJournaled-keeps eth before after rs keeps h.1)

AreJournaled-snoc :
    (eth : Eth) (j : Option Journal) (rs : List SettlementRecord) (r : SettlementRecord)
    → Journals (eth.hash_hex r.tx_hash) j
    → AreJournaled eth j rs
    → AreJournaled eth j (rs ++ r ∷ [])
AreJournaled-snoc eth j [] r has h = (has, tt)
AreJournaled-snoc eth j (q ∷ rs) r has h = (h.0, AreJournaled-snoc eth j rs r has h.1)

append_where-settlements :
    (w : World) (e : JournalEntry) (j : Option Journal) (s : GatewayState)
    → (append_where w e j s).1.settlements ≡ s.settlements
unfolding append_where
append_where-settlements w e none s = refl
append_where-settlements w e (some j) s = refl

journal_append-IsMirrored :
    (eth : Eth) (w : World) (e : JournalEntry) (s : GatewayState)
    → IsMirrored eth s
    → IsMirrored eth (journal_append w e s).1
unfolding journal_append
journal_append-IsMirrored eth w e s h =
    subst (AreJournaled eth (journal_append w e s).1.journal)
      (sym (append_where-settlements w e s.journal s))
      (AreJournaled-keeps eth s.journal (journal_append w e s).1.journal s.settlements
        (λ id has. journal_append-keeps w e id s has) h)

IsMirrored-Preserved : (g : Gateway) (w : World) → Preserved g w (IsMirrored g.eth)
IsMirrored-Preserved g w = record {
  on_journal = λ e s h. journal_append-IsMirrored g.eth w e s h;
  on_policy = λ ps s h. h;
  on_call = λ c s h. h;
  on_settlement = λ r s has h. AreJournaled-snoc g.eth s.journal s.settlements r has h;
  on_put = λ nonce df s h. h;
  on_remove = λ nonce s h. h;
}

abbrev AnySession : PaymentSession → Type 0
AnySession sess = Unit

IsMirrored-SessionsPreserved :
    (g : Gateway) (w : World) → SessionsPreserved g w (IsMirrored g.eth) AnySession
IsMirrored-SessionsPreserved g w = record {
  on_put = λ id sess s q h. h;
  on_remove = λ id s h. h;
  on_found = λ id sess s found h. tt;
  on_open = λ p resource v pc a sig verified valid parse. tt;
  on_draw = λ sess enough q. tt;
}

-- A request of any kind, whatever the facilitator, the chain and the journal's writes answer, keeps
-- that each mirrored settlement has a journal entry under its transaction where a journal is
-- attached.
pub middleware-IsMirrored :
    (g : Gateway) (w : World) (req : Request) (s : GatewayState)
    → IsMirrored g.eth s
    → IsMirrored g.eth (middleware g w req s).1
middleware-IsMirrored g w req s h =
    middleware-preserves g w (IsMirrored g.eth) AnySession (IsMirrored-Preserved g w)
      (IsMirrored-SessionsPreserved g w) req s h
