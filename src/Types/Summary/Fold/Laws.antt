-- ===== src/Types/Summary/Fold/Laws.antt =====
-- The governance fold, without its maps (crates/types/src/trajectory/summary.rs).
use sondera_coding_agent_hoo.Prelude.{
  Bool, true, false, Option, none, some, List, [], ◌∷◌, if◌then◌else◌, ◌≡◌, refl, ◌∙◌, ap, map,
}
use sondera_coding_agent_hoo.Prelude.Text.{Text, text_eq}
use sondera_coding_agent_hoo.Types.Json.{get, get-insert}
use sondera_coding_agent_hoo.Types.Scan.{
  EventScanResult, message, transcript_digest, transcript_scan, event_scan_result,
}
use sondera_coding_agent_hoo.Types.Control.{Control, Adjudicated}
use sondera_coding_agent_hoo.Types.Event.{Event, action, observation, control, state}
use sondera_coding_agent_hoo.Types.Summary.Fold.{
  Attached, EventDetail, attach_scan, attach_control, attach, attach_all, details, detail_of,
  visible, fold_event_details,
}

-- The first of two options that is there.
abbrev pub or_else : {A : Type 0} → Option A → Option A → Option A
or_else none b = b
or_else (some a) b = some a

-- The verdict that a record names `id` as the cause of.
abbrev verdict_in : Text → Control → Option Text → Option Adjudicated
verdict_in id c none = none
verdict_in id (Control.adjudicated a) (some source) = if text_eq source id then some a else none
verdict_in id c (some source) = none

abbrev pub verdict_on : Text → Event → Option Adjudicated
verdict_on id e = elim e.event [ control c ↦ verdict_in id c e.causality.causation_id | _ ↦ none ]

abbrev scan_in : Text → Control → Option Text → Option EventScanResult
scan_in id c none = none
scan_in id (Control.scanned s) (some source) =
    if text_eq source id then event_scan_result s else none
scan_in id c (some source) = none

abbrev pub scan_on : Text → Event → Option EventScanResult
scan_on id e = elim e.event [ control c ↦ scan_in id c e.causality.causation_id | _ ↦ none ]

-- The last event of a run for which `f` has a value.
abbrev pub last_with : {A : Type 0} → (Event → Option A) → List Event → Option A
last_with f [] = none
last_with f (e ∷ es) = or_else (last_with f es) (f e)

or_else_assoc : {A : Type 0} (a b c : Option A) → or_else a (or_else b c) ≡ or_else (or_else a b) c
or_else_assoc none b c = refl
or_else_assoc (some a) b c = refl

or_else_if :
    {A : Type 0} (t : Bool) (a : A) (b : Option A)
    → (if t then some a else b) ≡ or_else (if t then some a else none) b
or_else_if true a b = refl
or_else_if false a b = refl

or_else-none : {A : Type 0} (t : Bool) (b : Option A) → b ≡ or_else (if t then none else none) b
or_else-none true b = refl
or_else-none false b = refl

module _ (id : Text) where
  attach_control-verdict :
      (c : Control) (cause : Option Text) (s : Attached)
      → get (attach_control c cause s).adjudications id
        ≡ or_else (verdict_in id c cause) (get s.adjudications id)
  unfolding attach_control attach_scan event_scan_result
  attach_control-verdict (Control.adjudicated a) (some source) s =
      get-insert s.adjudications source a id ∙ or_else_if (text_eq source id) a _
  attach_control-verdict (Control.scanned (message i r)) (some source) s = refl
  attach_control-verdict (Control.scanned (transcript_digest i r)) (some source) s = refl
  attach_control-verdict (Control.scanned (transcript_scan i r)) (some source) s = refl
  attach_control-verdict _ none s = refl
  attach_control-verdict _ (some source) s = refl

  attach_control-scan :
      (c : Control) (cause : Option Text) (s : Attached)
      → get (attach_control c cause s).summaries id
        ≡ or_else (scan_in id c cause) (get s.summaries id)
  unfolding attach_control attach_scan event_scan_result
  attach_control-scan (Control.scanned (message i r)) (some source) s =
      get-insert s.summaries source r id ∙ or_else_if (text_eq source id) r _
  attach_control-scan (Control.scanned (transcript_digest i r)) (some source) s =
      or_else-none (text_eq source id) _
  attach_control-scan (Control.scanned (transcript_scan i r)) (some source) s =
      or_else-none (text_eq source id) _
  attach_control-scan _ none s = refl
  attach_control-scan _ (some source) s = refl

  attach-verdict :
      (e : Event) (s : Attached)
      → get (attach e s).adjudications id ≡ or_else (verdict_on id e) (get s.adjudications id)
  unfolding attach
  attach-verdict e s =
      elim e.event
        as (λ p.
          get
            (elim p as (λ _. Attached) [
              | control c ↦ attach_control c e.causality.causation_id s
              | action _ ↦ s
              | observation _ ↦ s
              | state _ ↦ s
            ]).adjudications
            id
          ≡ or_else
              (elim p as (λ _. Option Adjudicated) [
                | control c ↦ verdict_in id c e.causality.causation_id
                | action _ ↦ none
                | observation _ ↦ none
                | state _ ↦ none
              ])
              (get s.adjudications id)) [
                | control c ↦ attach_control-verdict c e.causality.causation_id s
                | action _ ↦ refl
                | observation _ ↦ refl
                | state _ ↦ refl
              ]

  attach-scan :
      (e : Event) (s : Attached)
      → get (attach e s).summaries id ≡ or_else (scan_on id e) (get s.summaries id)
  unfolding attach
  attach-scan e s =
      elim e.event
        as (λ p.
          get
            (elim p as (λ _. Attached) [
              | control c ↦ attach_control c e.causality.causation_id s
              | action _ ↦ s
              | observation _ ↦ s
              | state _ ↦ s
            ]).summaries
            id
          ≡ or_else
              (elim p as (λ _. Option EventScanResult) [
                | control c ↦ scan_in id c e.causality.causation_id
                | action _ ↦ none
                | observation _ ↦ none
                | state _ ↦ none
              ])
              (get s.summaries id)) [
                | control c ↦ attach_control-scan c e.causality.causation_id s
                | action _ ↦ refl
                | observation _ ↦ refl
                | state _ ↦ refl
              ]

  attach_all-verdict :
      (es : List Event) (s : Attached)
      → get (attach_all es s).adjudications id
        ≡ or_else (last_with (verdict_on id) es) (get s.adjudications id)
  unfolding attach_all
  attach_all-verdict [] s = refl
  attach_all-verdict (e ∷ es) s =
      attach_all-verdict es (attach e s)
      ∙ ap (λ o. or_else (last_with (verdict_on id) es) o) (attach-verdict e s)
      ∙ or_else_assoc (last_with (verdict_on id) es) (verdict_on id e) (get s.adjudications id)

  attach_all-scan :
      (es : List Event) (s : Attached)
      → get (attach_all es s).summaries id
        ≡ or_else (last_with (scan_on id) es) (get s.summaries id)
  unfolding attach_all
  attach_all-scan [] s = refl
  attach_all-scan (e ∷ es) s =
      attach_all-scan es (attach e s)
      ∙ ap (λ o. or_else (last_with (scan_on id) es) o) (attach-scan e s)
      ∙ or_else_assoc (last_with (scan_on id) es) (scan_on id e) (get s.summaries id)

or_else-right : {A : Type 0} (a : Option A) → or_else a none ≡ a
or_else-right none = refl
or_else-right (some a) = refl

-- What a reader is shown of an event: the last verdict and the last message scan of the run that
-- name it as their cause.
abbrev pub shown : List Event → Event → EventDetail
shown run e = record {
  event = e;
  adjudication = last_with (verdict_on e.event_id) run;
  summary = last_with (scan_on e.event_id) run;
}

details-shown :
    (run es : List Event)
    → details (attach_all run (record { adjudications = []; summaries = [] })) es
      ≡ map (shown run) es
unfolding details detail_of get
details-shown run [] = refl
details-shown run (e ∷ es) =
    let a = attach_all-verdict e.event_id run (record { adjudications = []; summaries = [] }) in
    let s = attach_all-scan e.event_id run (record { adjudications = []; summaries = [] }) in
    rw (a ∙ or_else-right _)
      (rw (s ∙ or_else-right _) (ap (λ r. shown run e ∷ r) (details-shown run es)))

-- The fold of a run is its visible events in their order, each with the last verdict and the last
-- message scan of the run that name the event as their cause: no verdict or scan is a row of its
-- own, and a later verdict on an event replaces an earlier one.
pub fold_event_details-shown :
    (run : List Event) → fold_event_details run ≡ map (shown run) (visible run)
unfolding fold_event_details
fold_event_details-shown run = details-shown run (visible run)
