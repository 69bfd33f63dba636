-- ===== src/Tests/Promotions.antt =====
-- The store's theorems on a store with one promotion and one event.
use genie_promote_cicd.Prelude.{◌≡◌, ◌↔◌, some, lookup, true}
use genie_promote_cicd.Promotions.Store.{find_by_change_request, is_request}
use genie_promote_cicd.Promotions.Invariant.{IsConsistent}
use genie_promote_cicd.Promotions.Reach.{audit, Reach-IsConsistent}
use genie_promote_cicd.Promotions.Lookup.{find_by_change_request_iff}
use genie_promote_cicd.Promotions.History.{Extends, Step-Extends}
use genie_promote_cicd.Tests.Samples.{
  store, created, opened, promotion, store-Reach, store-IsConsistent,
}

Reach-IsConsistent_example : IsConsistent store
Reach-IsConsistent_example = Reach-IsConsistent store-Reach

find_by_change_request_iff_example :
    (find_by_change_request "github" "17" store ≡ some promotion) ↔ (
      (lookup "p1" store.promotions ≡ some promotion) × (is_request "github" "17" promotion ≡ true))
find_by_change_request_iff_example =
    find_by_change_request_iff store store-IsConsistent "github" "17" promotion

Step-Extends_example : Extends created store
Step-Extends_example = Step-Extends (audit opened)
