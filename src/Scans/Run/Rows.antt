-- ===== src/Scans/Run/Rows.antt =====
-- No record of a scan points at a missing row (crates/harness/src/scan.rs).
use sondera_coding_agent_hoo.Prelude.{
  Option, none, some, List, [], ◌∷◌, ◌++◌, Has, ◌≡◌, refl, sym, ap, ◌∙◌, subst, inl, inr,
  Bool-cases,
}
use sondera_coding_agent_hoo.Prelude.Text.{Text, text_eq}
use sondera_coding_agent_hoo.Prelude.Lists.{Has-snoc}
use sondera_coding_agent_hoo.Types.Json.{HashMap, insert, get, get-insert, get-insert_same}
use sondera_coding_agent_hoo.Types.Control.{scanned}
use sondera_coding_agent_hoo.Types.Scan.{
  Scanned, EventScanResult, TranscriptDigest, TranscriptScanResult, message, transcript_digest,
  transcript_scan,
}
use sondera_coding_agent_hoo.Types.Event.{Event, control, new_event, with_actor, with_causality}
use sondera_coding_agent_hoo.Scans.Scanner.{
  Answer, answered, refused, scan_event, digest_transcript, digest_interim_transcript,
  scan_transcript,
}
use sondera_coding_agent_hoo.Scans.Task.{
  Task, ScanStore, Outside, After, ScanSource, scan_one, load_final, load_interim, digest_final,
  scan_final, digest_interim, emit, stored, source_of, record_event_scan, record_digest,
  record_transcript_scan, transcript, loaded, continued, advance, event_answered, final_answered,
  scan_answered, interim_answered, emit_scanned, scanned_record,
}

-- The table of the scan's kind has a row under the id of its source event.
abbrev pub HasRow : ScanStore → Scanned → Type 0
HasRow s (message id r) = (row : ScanSource × EventScanResult) × (get s.event_scans id ≡ some row)
HasRow s (transcript_digest id r) =
    (row : ScanSource × TranscriptDigest) × (get s.digests id ≡ some row)
HasRow s (transcript_scan id r) =
    (row : ScanSource × TranscriptScanResult) × (get s.scans id ≡ some row)

-- Each record of a scan in the ledger has its row.
abbrev pub IsBacked : ScanStore → Type 0
IsBacked s =
    (e : Event) → Has e s.ledger → (x : Scanned) → e.event ≡ control (scanned x) → HasRow s x

abbrev pub IsDue : ScanStore → Task → Type 0
IsDue s (emit e x rest) = HasRow s x
IsDue s _ = Unit

abbrev pub IsNextDue : ScanStore → Option Task → Type 0
IsNextDue s none = Unit
IsNextDue s (some t) = IsDue s t

-- What a step of a scan guarantees.
pub record Kept (s : ScanStore) (a : After) : Type 0 where
  pub grows : (x : Scanned) → HasRow s x → HasRow a.1 x
  pub next : IsNextDue a.1 a.0
  pub backed : IsBacked s → IsBacked a.1

kept_row :
    {V : Type 0} (m : HashMap V) (k : Text) (v : V) (id : Text)
    → ((row : V) × (get m id ≡ some row))
    → (row : V) × (get (insert m k v) id ≡ some row)
kept_row m k v id (row, e) = elim (Bool-cases (text_eq k id)) [
  | inl t ↦ (v, rw (get-insert m k v id) (rw t refl))
  | inr t ↦ (row, rw (get-insert m k v id) (rw t e))
]

Kept-same : (s : ScanStore) (next : Option Task) → IsNextDue s next → Kept s (next, s)
Kept-same s next d = record { grows = λ x r. r; next = d; backed = λ b. b }

-- An insertion: the ledger stays, and no row is lost.
Kept-inserted :
    (s s' : ScanStore) (next : Option Task)
    → s'.ledger ≡ s.ledger
    → ((x : Scanned) → HasRow s x → HasRow s' x)
    → IsNextDue s' next
    → Kept s (next, s')
Kept-inserted s s' next l g d = record {
  grows = g;
  next = d;
  backed = λ b e m x k. g x (b e (subst (λ es. Has e es) l m) x k);
}

pub HasRow-ledger :
    (s : ScanStore) (es : List Event) (x : Scanned)
    → HasRow s x
    → HasRow (record s { ledger = es }) x
HasRow-ledger s es (message id r) h = h
HasRow-ledger s es (transcript_digest id r) h = h
HasRow-ledger s es (transcript_scan id r) h = h

pub IsBacked-append :
    (s : ScanStore) (e : Event)
    → ((x : Scanned) → e.event ≡ control (scanned x) → HasRow s x)
    → IsBacked s
    → IsBacked (record s { ledger = s.ledger ++ e ∷ [] })
IsBacked-append s e r b y m x k =
    HasRow-ledger s (s.ledger ++ e ∷ []) x (elim (Has-snoc s.ledger e y m) [
      | inl n ↦ b y n x k
      | inr i ↦ r x (ap (λ z. z.event) (sym i) ∙ k)
    ])

module _ (o : Outside) where
  Kept-stored :
      (s s' : ScanStore) (emitted : Task) (next : Option Task)
      → Kept s (some emitted, s')
      → IsNextDue s next
      → Kept s (stored o s s' emitted next)
  unfolding stored
  Kept-stored s s' emitted next k d = elim (Bool-cases o.refuses) [
    | inl b ↦ rw b (Kept-same s next d)
    | inr b ↦ rw b k
  ]

  Kept-event_answered :
      (e : Event) (a : Answer EventScanResult) (s : ScanStore) → Kept s (event_answered o e a s)
  unfolding event_answered record_event_scan
  Kept-event_answered e (refused x) s = Kept-same s none tt
  Kept-event_answered e (answered r) s =
      Kept-stored s _ _ none
        (Kept-inserted s
          (record s { event_scans = insert s.event_scans e.event_id (source_of e, r) })
          (some (emit e (message e.event_id r) none)) refl grown
          (_, get-insert_same s.event_scans e.event_id (source_of e, r)))
        tt
    where
      grown :
          (x : Scanned)
          → HasRow s x
          → HasRow (record s { event_scans = insert s.event_scans e.event_id (source_of e, r) }) x
      grown (message id q) h = kept_row s.event_scans e.event_id (source_of e, r) id h
      grown (transcript_digest id q) h = h
      grown (transcript_scan id q) h = h

  Kept-record_digest :
      (e : Event) (d : TranscriptDigest) (rest : Option (List Event)) (next : Option Task)
      (s : ScanStore)
      → IsNextDue s next
      → Kept s (record_digest o e d rest next s)
  unfolding record_digest
  Kept-record_digest e d rest next s due =
      Kept-stored s _ _ next
        (Kept-inserted s (record s { digests = insert s.digests e.event_id (source_of e, d) })
          (some (emit e (transcript_digest e.event_id d) rest)) refl grown
          (_, get-insert_same s.digests e.event_id (source_of e, d)))
        due
    where
      grown :
          (x : Scanned)
          → HasRow s x
          → HasRow (record s { digests = insert s.digests e.event_id (source_of e, d) }) x
      grown (message id q) h = h
      grown (transcript_digest id q) h = kept_row s.digests e.event_id (source_of e, d) id h
      grown (transcript_scan id q) h = h

  Kept-final_answered :
      (e : Event) (es : List Event) (a : Answer TranscriptDigest) (s : ScanStore)
      → Kept s (final_answered o e es a s)
  unfolding final_answered
  Kept-final_answered e es (refused x) s = Kept-same s (some (scan_final e es)) tt
  Kept-final_answered e es (answered d) s =
      Kept-record_digest e d (some es) (some (scan_final e es)) s tt

  Kept-interim_answered :
      (e : Event) (a : Answer TranscriptDigest) (s : ScanStore) → Kept s (interim_answered o e a s)
  unfolding interim_answered
  Kept-interim_answered e (refused x) s = Kept-same s none tt
  Kept-interim_answered e (answered d) s = Kept-record_digest e d none none s tt

  Kept-scan_answered :
      (e : Event) (a : Answer TranscriptScanResult) (s : ScanStore) → Kept s (scan_answered o e a s)
  unfolding scan_answered record_transcript_scan
  Kept-scan_answered e (refused x) s = Kept-same s none tt
  Kept-scan_answered e (answered r) s =
      Kept-stored s _ _ none
        (Kept-inserted s (record s { scans = insert s.scans e.event_id (source_of e, r) })
          (some (emit e (transcript_scan e.event_id r) none)) refl grown
          (_, get-insert_same s.scans e.event_id (source_of e, r)))
        tt
    where
      grown :
          (x : Scanned)
          → HasRow s x
          → HasRow (record s { scans = insert s.scans e.event_id (source_of e, r) }) x
      grown (message id q) h = h
      grown (transcript_digest id q) h = h
      grown (transcript_scan id q) h = kept_row s.scans e.event_id (source_of e, r) id h

  loaded_due :
      (s : ScanStore) (next : List Event → Task) (events : Option (List Event))
      → ((es : List Event) → IsDue s (next es))
      → IsNextDue s (loaded next events)
  unfolding loaded
  loaded_due s next none d = tt
  loaded_due s next (some es) d = d es

  continued_due :
      (s : ScanStore) (e : Event) (rest : Option (List Event)) → IsNextDue s (continued e rest)
  unfolding continued
  continued_due s e none = tt
  continued_due s e (some es) = tt

  scanned_inj : {x y : Scanned} → control (scanned x) ≡ control (scanned y) → x ≡ y
  scanned_inj h = cc

  Kept-emit :
      (e : Event) (x : Scanned) (rest : Option (List Event)) (s : ScanStore)
      → HasRow s x
      → Kept s (continued e rest, emit_scanned o e x s)
  unfolding emit_scanned scanned_record new_event with_actor with_causality
  Kept-emit e x rest s h = elim (Bool-cases o.refuses) [
    | inl b ↦ rw b (Kept-same s (continued e rest) (continued_due s e rest))
    | inr b ↦ rw b (record {
      grows = λ y r. HasRow-ledger s (s.ledger ++ scanned_record o.fresh e x ∷ []) y r;
      next =
          continued_due (record s { ledger = s.ledger ++ scanned_record o.fresh e x ∷ [] }) e rest;
      backed = λ k.
          IsBacked-append s (scanned_record o.fresh e x)
            (λ y eq. subst (λ z. HasRow s z) (scanned_inj eq) h) k;
    })
  ]

  pub Kept-advance : (t : Task) (s : ScanStore) → IsDue s t → Kept s (advance o t s)
  unfolding advance
  Kept-advance (scan_one e) s d = Kept-event_answered e (scan_event o.model e) s
  Kept-advance (load_final e) s d =
      Kept-same s _ (loaded_due s (digest_final e) (transcript o e s) (λ es. tt))
  Kept-advance (load_interim e) s d =
      Kept-same s _ (loaded_due s (digest_interim e) (transcript o e s) (λ es. tt))
  Kept-advance (digest_final e es) s d =
      Kept-final_answered e es (digest_transcript o.model e.trajectory_id es) s
  Kept-advance (scan_final e es) s d =
      Kept-scan_answered e (scan_transcript o.model e.trajectory_id es) s
  Kept-advance (digest_interim e es) s d =
      Kept-interim_answered e (digest_interim_transcript o.model e.trajectory_id es) s
  Kept-advance (emit e x rest) s d = Kept-emit e x rest s d
