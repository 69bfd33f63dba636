-- ===== src/ChangeRequest/Revisions.antt =====
-- Revision pairs: validation, and the rejection of a deployment that ran another pair.
use Prim.Native.Char.{code}
use Prim.Native.String
use Prim.Native.String.{[], ◌∷◌, count, slice}
use mathlib.Core.List.{List}
use genie_promote_cicd.Prelude.{
  ℕ, String, Bool, true, ◌&&◌, ◌||◌, not, Option, none, some, Result, ok, raise, value_error, ◌==◌,
  leb, eqb, if◌then◌else◌, or_else, strip,
}
use genie_promote_cicd.ChangeRequest.Types.{RevisionPair, ChangeRequestObservation}

-- The character class [0-9a-f].
abbrev is_hex : ℕ → Bool
is_hex c = (leb b'0' c && leb c b'9') || (leb b'a' c && leb c b'f')

abbrev all_hex : String → Bool
all_hex [] = true
all_hex (c ∷ s) = is_hex (code c) && all_hex s

-- `re.compile(r"^[0-9a-f]{n}$").fullmatch(s)`
unfoldable pub is_sha : ℕ → String → Bool
is_sha n s = eqb (count s) n && all_hex s

-- `RevisionPair(content_revision, engine_revision)` with its `__post_init__`.
unfoldable pub make_revision_pair : String → String → Result RevisionPair
make_revision_pair content engine =
    if not (is_sha 64 content)
    then raise value_error
    else if not (is_sha 40 engine)
    then raise value_error
    else ok (record { content_revision = content; engine_revision = engine })

-- `value.get(key)`, with a null for an absent key.
abbrev pub get_text : String → List (String × Option String) → Option String
get_text key List.[] = none
get_text key (List.◌∷◌ (k, v) more) = let rest = get_text key more in if k == key then v else rest

-- `RevisionPair.from_dict`
unfoldable pub revision_pair_from_dict :
    Option (List (String × Option String)) → Result (Option RevisionPair)
revision_pair_from_dict none = ok none
revision_pair_from_dict (some List.[]) = ok none
revision_pair_from_dict (some (List.◌∷◌ entry more)) =
    let value = List.◌∷◌ entry more in
    elim (make_revision_pair (or_else (get_text "content_revision" value) "")
      (or_else (get_text "engine_revision" value) "")) [
        | ok pair ↦ ok (some pair)
        | raise e ↦ raise e
      ]

-- `RevisionPair.to_dict`
unfoldable pub revision_pair_to_dict : RevisionPair → List (String × Option String)
revision_pair_to_dict p =
    List.◌∷◌ ("content_revision", some p.content_revision)
      (List.◌∷◌ ("engine_revision", some p.engine_revision) List.[])

unfoldable pub parse_engine_lock : Option String → Result String
parse_engine_lock raw =
    let value = strip (or_else raw "") in
    if not (is_sha 40 value) then raise value_error else ok value

-- `==` of the frozen data class.
abbrev pub same_pair : RevisionPair → RevisionPair → Bool
same_pair a b = a.content_revision == b.content_revision && a.engine_revision == b.engine_revision

abbrev short : String → String
short s = slice s 0 12

abbrev mismatch_reason : RevisionPair → RevisionPair → String
mismatch_reason a b = String.◌++◌ "deployment revision mismatch: approved " (
    String.◌++◌ (short a.content_revision) (
      String.◌++◌ "/" (
        String.◌++◌ (short a.engine_revision) (
          String.◌++◌ ", observed "
            (String.◌++◌ (short b.content_revision) (String.◌++◌ "/" (short b.engine_revision)))))))

reject : ChangeRequestObservation → RevisionPair → RevisionPair → ChangeRequestObservation
reject observation approved ran = record observation {
  phase = "revision_mismatch";
  deployment = record (observation.deployment) {
    rejected = true;
    rejection_reason = some (mismatch_reason approved ran);
    conclusion = some "failure";
  };
}

-- The three last tests of the guard; a `none` is a revision pair that is not known.
reject_unless :
    ChangeRequestObservation → RevisionPair → Option RevisionPair → ChangeRequestObservation
unfolding reject
reject_unless observation approved none = observation
reject_unless observation approved (some ran) =
    if same_pair ran approved then observation else reject observation approved ran

abbrev pub not_started : String → Bool
not_started status = status == "none" || status == "waiting"

-- Reject, rather than report, a deployment that ran a different approved pair.
unfoldable pub reject_mismatched_deployment :
    ChangeRequestObservation → Option RevisionPair → ChangeRequestObservation
unfolding reject_unless
reject_mismatched_deployment observation none = observation
reject_mismatched_deployment observation (some approved) =
    if not_started observation.deployment.status
    then observation
    else reject_unless observation approved observation.deployment.revisions
