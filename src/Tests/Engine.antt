-- ===== src/Tests/Engine.antt =====
-- A promotion request that meets another one of the same Change Request between its lookup and its
-- creation.
use genie_promote_cicd.Prelude.{
  String, ◌≡◌, refl, true, ◌||◌, if◌then◌else◌, none, some, [], any, ok,
}
use genie_promote_cicd.Promotions.Backend.{Backend, empty, is_event}
use genie_promote_cicd.Promotions.Store
use genie_promote_cicd.Promotions.Invariant.{IsConsistent}
use genie_promote_cicd.Promotions.Reach.{start, next, create, Reach-IsConsistent}
use genie_promote_cicd.Engine.Persist.{Request, persist_promotion}
use genie_promote_cicd.Engine.Recording.{Asked}
use genie_promote_cicd.Engine.Requests.{is_known, persist_promotion-returns}
use genie_promote_cicd.Tests.Samples.{new_request}

abbrev request : Request
request = record {
  target_id = "space-1";
  kind = "genie_space";
  resource_title = some "Sales";
  table_mapping = none;
  requester_email = some "bia@example.com";
  branch = "promote/space-1";
  audience_spec = none;
  gate_conclusion = some "success";
  gate_summary = none;
  findings = [];
  eval = none;
  timeline = [];
  provider = "github";
  external_id = "17";
  external_url = none;
  content_revision = some "c1";
  engine_revision = some "e1";
}

abbrev meanwhile : Backend → Backend
meanwhile b = (Store.create_promotion "p9" 100 new_request b).1

abbrev fresh : String → String
fresh name = name

raced : IsConsistent (meanwhile empty)
raced = Reach-IsConsistent (next start (create "p9" 100 new_request refl))

persist_promotion-returns_example :
    (id : String) × ((persist_promotion meanwhile fresh 120 request empty).0 ≡ ok id)
    × (any
          (is_event id (
            if is_known request empty || is_known request (meanwhile empty)
            then "re_reviewed"
            else "requested"))
          (persist_promotion meanwhile fresh 120 request empty).1.events
        ≡ true)
    × Asked "github" "17" id (persist_promotion meanwhile fresh 120 request empty).1
persist_promotion-returns_example =
    persist_promotion-returns fresh 120 request refl meanwhile empty (Reach-IsConsistent start)
      raced
