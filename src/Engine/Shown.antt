-- ===== src/Engine/Shown.antt =====
-- engine_api/main.py: who sees a promotion and its trail.
use genie_promote_cicd.Prelude.{
  String, ◌≡◌, ◌↔◌, refl, sym, ap, ◌∙◌, subst, Bool, true, false, not, ◌||◌, Option, none, some,
  Option-cases, List, arith, inl, inr, ◌⊎◌, ◌==◌, lookup, values, select, mem-select, mem-sort_by,
  same_text, Memᴰ, sort_by, if◌then◌else◌,
}
use genie_promote_cicd.Promotions.Types.{Promotion, AuditEvent}
use genie_promote_cicd.Promotions.Backend
use genie_promote_cicd.Promotions.Backend.{Backend, newer_promotion}
use genie_promote_cicd.Config.Roles.{RolesBackend}
use genie_promote_cicd.Access.Authz.{verify_identity}
use genie_promote_cicd.Engine.Identity.{
  Surroundings, Headers, user_token, verified_email, verified_by, name_in, is_admin_email,
}
use genie_promote_cicd.Engine.Admin.{Response, respond, http_error}
use genie_promote_cicd.Engine.Visibility.{
  in_queue, is_owner, list_promotions, visible_or_403, visible_promotion, get_promotion_audit,
  and_events,
}
use genie_promote_cicd.Engine.Verified.{verified_email-nonempty, is_owner-same}

module _ (env : Surroundings) (h : Headers) (roles : Option RolesBackend) where
  -- The request has no token, or one that does not verify to a name.
  abbrev pub Unverified : Type 0
  Unverified =
      (user_token env h ≡ none)
      ⊎ ((token : String) × (user_token env h ≡ some token)
          × (name_in (verify_identity (env.me token)) ≡ none))

  Unverified-of_none : verified_email env h ≡ none → Unverified
  unfolding verified_email
  Unverified-of_none e = elim (Option-cases (user_token env h)) [
    | inl absent ↦ inl absent
    | inr (token, given) ↦ inr (token, given, ap (verified_by env.me) (sym given) ∙ e)
  ]

  none-of_Unverified : Unverified → verified_email env h ≡ none
  unfolding verified_email
  none-of_Unverified (inl absent) = ap (verified_by env.me) absent
  none-of_Unverified (inr (token, given, fails)) = ap (verified_by env.me) given ∙ fails

  -- Why a promotion is shown to the caller.
  abbrev pub Entitled : Promotion → Type 0
  Entitled p =
      Unverified
      ⊎ (((email : String) × (verified_email env h ≡ some email)
          × ((is_admin_email env roles (some email) || is_owner email p) ≡ true)))

  visible_or_403-Entitled :
      (verified : Option String) (o : Option Promotion) (p : Promotion)
      → visible_or_403 env h roles verified o ≡ respond p
      → (o ≡ some p)
        × ((verified ≡ none)
            ⊎ (((email : String) × (verified ≡ some email)
                × ((is_admin_email env roles (some email) || is_owner email p) ≡ true))))
  visible_or_403-Entitled verified none p e = absurd (cc)
  visible_or_403-Entitled none (some q) p e = let same : q ≡ p = cc in (ap some same, inl refl)
  visible_or_403-Entitled (some email) (some q) p e =
      seen (is_admin_email env roles (some email) || is_owner email q) refl e
    where
      seen :
          (b : Bool)
          → (is_admin_email env roles (some email) || is_owner email q) ≡ b
          → (if b then respond q else http_error 403) ≡ respond p
          → (some q ≡ some p)
            × ((some email ≡ none)
                ⊎ (((name : String) × (some email ≡ some name)
                    × ((is_admin_email env roles (some name) || is_owner name p) ≡ true))))
      seen true t k =
          let same : q ≡ p = cc in
          (
            ap some same,
            inr (
              email,
              refl,
              subst (λ r. (is_admin_email env roles (some email) || is_owner email r) ≡ true) same
                  t,
            ),
          )
      seen false t k = absurd (cc)

  audit-shown :
      (promotion_id : String) (b : Backend) (events : List AuditEvent)
      → get_promotion_audit env h roles promotion_id (some b) ≡ respond events
      → (p : Promotion) × (lookup promotion_id b.promotions ≡ some p)
        × Entitled p
        × (events ≡ Backend.list_audit_events promotion_id b)
  unfolding get_promotion_audit visible_promotion Backend.get_promotion
  audit-shown promotion_id b events e =
      shown (visible_or_403 env h roles (verified_email env h) (lookup promotion_id b.promotions))
        refl e
    where
      why :
          (p : Promotion)
          → (verified_email env h ≡ none)
            ⊎ (((email : String) × (verified_email env h ≡ some email)
                × ((is_admin_email env roles (some email) || is_owner email p) ≡ true)))
          → Entitled p
      why p (inl nobody) = inl (Unverified-of_none nobody)
      why p (inr known) = inr known

      shown :
          (r : Response Promotion)
          → visible_or_403 env h roles (verified_email env h) (lookup promotion_id b.promotions) ≡ r
          → and_events env h roles r (Backend.list_audit_events promotion_id b) ≡ respond events
          → (p : Promotion) × (lookup promotion_id b.promotions ≡ some p)
            × Entitled p
            × (events ≡ Backend.list_audit_events promotion_id b)
      shown (http_error status) v k = absurd (cc)
      shown (respond p) v k =
          let (found, entitled) =
            visible_or_403-Entitled (verified_email env h) (lookup promotion_id b.promotions) p v in
          (p, found, why p entitled, cc)

  shown-audit :
      (promotion_id : String) (b : Backend) (p : Promotion)
      → lookup promotion_id b.promotions ≡ some p
      → Entitled p
      → get_promotion_audit env h roles promotion_id (some b)
        ≡ respond (Backend.list_audit_events promotion_id b)
  unfolding get_promotion_audit visible_promotion Backend.get_promotion
  shown-audit promotion_id b p stored (inl nobody) = rw (stored, none-of_Unverified nobody) refl
  shown-audit promotion_id b p stored (inr (email, verified, allowed)) =
      rw (stored, verified) (rw allowed refl)

  -- A request for a promotion's trail is answered with events exactly where the promotion is stored,
  -- they are its trail, and the caller has no token, has one that does not verify, or has one that
  -- verifies to the name of an administrator or, up to letter case, of the one who requested it.
  pub get_promotion_audit_iff :
      (promotion_id : String) (b : Backend) (events : List AuditEvent)
      → (get_promotion_audit env h roles promotion_id (some b) ≡ respond events) ↔ (
          (p : Promotion) × (lookup promotion_id b.promotions ≡ some p)
          × Entitled p
          × (events ≡ Backend.list_audit_events promotion_id b))
  get_promotion_audit_iff promotion_id b events = (
    audit-shown promotion_id b events,
    λ (p, stored, entitled, same).
        shown-audit promotion_id b p stored entitled ∙ ap respond (sym same),
  )

  if_responds :
      {A : Type 0} (b : Bool) (x y : Response A) (a : A)
      → (if b then x else y) ≡ respond a
      → ((b ≡ true) × (x ≡ respond a)) ⊎ ((b ≡ false) × (y ≡ respond a))
  if_responds true x y a e = inl (refl, e)
  if_responds false x y a e = inr (refl, e)

  -- Why a listed promotion is listed.
  abbrev pub Listed : Backend → Promotion → Type 0
  Listed b p = Memᴰ p (values b.promotions) × (Entitled p ⊎ (in_queue p ≡ true))

  mine-Listed :
      (verified : Option String) (b : Backend) (p : Promotion)
      → verified_email env h ≡ verified
      → Memᴰ p (Backend.list_promotions verified b)
      → Listed b p
  unfolding Backend.list_promotions
  mine-Listed none b p v m =
      (mem-sort_by newer_promotion (values b.promotions) m, inl (inl (Unverified-of_none v)))
  mine-Listed (some email) b p v m =
      let (stored, own) =
        mem-select (λ q. same_text q.requester_email (some email)) (values b.promotions)
          (mem-sort_by newer_promotion
            (select (λ q. same_text q.requester_email (some email)) (values b.promotions)) m) in
      (
        stored,
        inl (
            inr (
              email,
              v,
              ground (
                arith,
                is_owner-same p.requester_email email (verified_email-nonempty env h email v) own,
              ),
            )),
      )

  all-Listed :
      (b : Backend) (p : Promotion)
      → is_admin_email env roles (verified_email env h) ≡ true
      → Memᴰ p (Backend.list_promotions none b)
      → Listed b p
  unfolding Backend.list_promotions
  all-Listed b p t m = (
    mem-sort_by newer_promotion (values b.promotions) m,
    inl (admin (verified_email env h) refl t),
  )
    where
      admin :
          (verified : Option String)
          → verified_email env h ≡ verified
          → is_admin_email env roles verified ≡ true
          → Entitled p
      admin none v k = inl (Unverified-of_none v)
      admin (some email) v k = inr (email, v, ground (arith, k))

  queue-Listed :
      (b : Backend) (p : Promotion)
      → Memᴰ p (select in_queue (Backend.list_promotions none b))
      → Listed b p
  unfolding Backend.list_promotions
  queue-Listed b p m =
      let (stored, waits) = mem-select in_queue (sort_by newer_promotion (values b.promotions)) m in
      (mem-sort_by newer_promotion (values b.promotions) stored, inr waits)

  -- Each promotion that a list shows is stored, and the caller has no token, has one that does not
  -- verify, or has one that verifies to the name of an administrator or, up to letter case, of the one
  -- who requested it; or it waits in the queue that everybody sees: it is open, its checks run, or it
  -- awaits approval.
  pub list_promotions-Listed :
      (scope : String) (b : Backend) (ps : List Promotion) {p : Promotion}
      → list_promotions env h roles scope (some b) ≡ respond ps
      → Memᴰ p ps
      → Listed b p
  unfolding list_promotions
  list_promotions-Listed scope b ps {p} e m = elim (if_responds (scope == "mine") _ _ ps e) [
    | inl (t, mine) ↦
        mine-Listed (verified_email env h) b p refl (subst (λ l. Memᴰ p l) (listed_by mine) m)
    | inr (f, e') ↦ elim (if_responds (scope == "all") _ _ ps e') [
      | inl (t, all) ↦
          elim (if_responds (not (is_admin_email env roles (verified_email env h))) _ _ ps all) [
            | inl (n, e4) ↦ absurd (cc)
            | inr (a, shown) ↦
                all-Listed b p (ground arith) (subst (λ l. Memᴰ p l) (listed_by shown) m)
          ]
      | inr (g, e'') ↦ elim (if_responds (scope == "steward-queue") _ _ ps e'') [
        | inl (t, queue) ↦ queue-Listed b p (subst (λ l. Memᴰ p l) (listed_by queue) m)
        | inr (k, e4) ↦ absurd (cc)
      ]
    ]
  ]
    where
      listed_by : {l : List Promotion} → respond l ≡ respond ps → ps ≡ l
      listed_by k = cc
