-- ===== src/Cedar/Request/Build.antt =====
-- `build_request` (crates/policy/cedar/src/transform.rs).
use sondera_coding_agent_hoo.Prelude.Text.{codes}
use sondera_coding_agent_hoo.Types.Event.{Event}
use sondera_coding_agent_hoo.Cedar.Context.{fields}
use sondera_coding_agent_hoo.Cedar.Entity.{euid}
use sondera_coding_agent_hoo.Cedar.Store.{Db, Faults, Outcome, ok, and_then, update_entity}
use sondera_coding_agent_hoo.Cedar.Request.{Outside, Request, count_step, trajectory_uid}
use sondera_coding_agent_hoo.Cedar.Request.Targets.{target_of}

module _ (outside : Outside) (faults : Faults) (event : Event) where
  -- `build_request`, up to the validation of `Request::new`.
  unfoldable pub build_request : Db → Outcome Request
  unfolding target_of count_step update_entity
  build_request db =
      and_then (update_entity faults (trajectory_uid event) (count_step event.trajectory_id) db)
        (λ _ db1. and_then (target_of outside faults event event.event db1) (λ target db2. (
          ok (record {
            principal = euid (codes "Agent") event.actor.id;
            action_id = target.action_id;
            resource = target.resource;
            context = fields target.context;
          }),
          db2,
        )))
