-- ===== src/Scans/Scanner/Laws.antt =====
-- Digests are keyed by the run that was asked about (crates/trajectory/src/scanner.rs).
use sondera_coding_agent_hoo.Prelude.{true, List, [], ◌∷◌, ◌≡◌, refl, ◌∙◌, ap, sym}
use sondera_coding_agent_hoo.Prelude.Text.{Text}
use sondera_coding_agent_hoo.Types.Scan.{TranscriptDigest}
use sondera_coding_agent_hoo.Types.Event.{Event}
use sondera_coding_agent_hoo.Scans.Scanner.{
  Answer, Model, ScannerError, answered, refused, render_digest, digest_transcript,
  digest_interim_transcript,
}

answered_inj : {a b : TranscriptDigest} → answered a ≡ answered b → a ≡ b
answered_inj h = cc

no_answer : {x : ScannerError} {d : TranscriptDigest} → refused x ≡ answered d → ⊥
no_answer h = cc

render_digest-id :
    (m : Model) (id : Text) (events : List Event) (d : TranscriptDigest)
    → render_digest m id events ≡ answered d
    → d.trajectory_id ≡ id
unfolding render_digest
render_digest-id m id events d = by_answer (m.extract_digest id events)
  where
    by_answer :
        (a : Answer TranscriptDigest)
        → (elim a as (λ _. Answer TranscriptDigest) [
          | answered x ↦ answered (record x { trajectory_id = id })
          | refused e ↦ refused e
        ])
          ≡ answered d
        → d.trajectory_id ≡ id
    by_answer (answered x) h = ap (λ y. y.trajectory_id) (sym (answered_inj h))
    by_answer (refused e) h = absurd (no_answer h)

-- A digest never names another run: whatever the model answers, a final digest carries the id that
-- the caller gave, and an interim digest carries it too and is marked as interim.
pub digest_transcript-id :
    (m : Model) (id : Text) (events : List Event)
    → ((d : TranscriptDigest) → digest_transcript m id events ≡ answered d → d.trajectory_id ≡ id)
      × ((d : TranscriptDigest)
          → digest_interim_transcript m id events ≡ answered d
          → (d.trajectory_id ≡ id) × (d.interim ≡ true))
unfolding digest_transcript digest_interim_transcript
digest_transcript-id m id [] = (λ d h. absurd (no_answer h), λ d h. absurd (no_answer h))
digest_transcript-id m id (e ∷ es) =
    (λ d h. render_digest-id m id (e ∷ es) d h, λ d. marked d (render_digest m id (e ∷ es)) refl)
  where
    marked :
        (d : TranscriptDigest) (a : Answer TranscriptDigest)
        → render_digest m id (e ∷ es) ≡ a
        → (elim a as (λ _. Answer TranscriptDigest) [
          | answered x ↦ answered (record x { interim = true })
          | refused y ↦ refused y
        ])
          ≡ answered d
        → (d.trajectory_id ≡ id) × (d.interim ≡ true)
    marked d (answered x) r h = (
      ap (λ y. y.trajectory_id) (sym (answered_inj h)) ∙ render_digest-id m id (e ∷ es) x r,
      ap (λ y. y.interim) (sym (answered_inj h)),
    )
    marked d (refused y) r h = absurd (no_answer h)
