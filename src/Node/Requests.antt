-- ===== src/Node/Requests.antt =====
-- The request ids of capacity requests: what utils.rs reads back from the id that get_candidates of
-- restapi/mod.rs makes.
use Prim.Native.Char.{Char, code}
use Prim.Native.String.{◌++◌ as append}
use text.Mathlib.TextLemmas.{cons-append, nil-append, append_assoc}
use beemesh.Prelude.{
  ℕ, ◌≡◌, ◌≢◌, refl, ap, ◌∙◌, String, Bool, true, false, not, ◌&&◌, Bool-cases, inl, inr, some,
  List, [], ◌∷◌, arith, ◌==◌, str_eq, eq_iff,
}
use beemesh.Text.{codes, split, starts_with, with_first}
use beemesh.Node.Bidding.{
  free_capacity_prefix, candidate_request_id, colon_part, dash_part, or_dashed,
  extract_manifest_id_from_request_id,
}

-- the character does not occur
abbrev pub lacks : ℕ → String → Bool
lacks sep String.[] = true
lacks sep (String.◌∷◌ c s) = not (code c == sep) && lacks sep s

lacks-head :
    (sep : ℕ) (c : Char) (s : String)
    → lacks sep (String.◌∷◌ c s) ≡ true
    → (code c == sep ≡ false) × (lacks sep s ≡ true)
lacks-head sep c s h = ground arith

-- a part that lacks the separator ends at it, or is all there is
split-append :
    (sep : ℕ) (c : Char) (s rest : String)
    → code c == sep ≡ true
    → lacks sep s ≡ true
    → split sep (append s (String.◌∷◌ c rest)) ≡ s ∷ split sep rest
unfolding split
split-append sep c String.[] rest here h = rw (nil-append, here) refl
split-append sep c (String.◌∷◌ d s) rest here h =
    let (other, further) = lacks-head sep d s h in
    rw (cons-append, other, split-append sep c s rest here further, with_first) refl

colon-append : (s : String) → append ":" s ≡ String.◌∷◌ ":" s
colon-append s = rw (cons-append, nil-append) refl

dash-append : (s : String) → append "-" s ≡ String.◌∷◌ "-" s
dash-append s = rw (cons-append, nil-append) refl

candidate_parts :
    (task_id uuid : String)
    → lacks b':' task_id ≡ true
    → split b':' (candidate_request_id task_id uuid)
      ≡ free_capacity_prefix ∷ task_id ∷ split b':' uuid
unfolding candidate_request_id
candidate_parts task_id uuid plain =
    rw
      (
        colon-append (append task_id (append ":" uuid)),
        colon-append uuid,
        split-append b':' ":" free_capacity_prefix (append task_id (String.◌∷◌ ":" uuid)) refl refl,
        split-append b':' ":" task_id uuid refl plain,
      )
      refl

named :
    (id task_id : String) (rest : List String)
    → task_id ≢ ""
    → or_dashed id (colon_part (free_capacity_prefix ∷ task_id ∷ rest)) ≡ some task_id
unfolding colon_part or_dashed
named id task_id rest nonempty = elim (Bool-cases (str_eq task_id "")) [
  | inl empty ↦ absurd (nonempty ((eq_iff task_id "").0 empty))
  | inr full ↦ rw full refl
]

-- The id of a request for candidates gives the task back, as long as the task's name is not empty
-- and has no colon, whatever stands behind it.
pub extract-candidate_request_id :
    (task_id uuid : String)
    → lacks b':' task_id ≡ true
    → task_id ≢ ""
    → extract_manifest_id_from_request_id (candidate_request_id task_id uuid) ≡ some task_id
unfolding extract_manifest_id_from_request_id
extract-candidate_request_id task_id uuid plain nonempty =
    rw (candidate_parts task_id uuid plain)
      (named (candidate_request_id task_id uuid) task_id (split b':' uuid) nonempty)

split-lacks : (sep : ℕ) (s : String) → lacks sep s ≡ true → split sep s ≡ s ∷ []
unfolding split with_first
split-lacks sep String.[] h = refl
split-lacks sep (String.◌∷◌ c s) h =
    let (other, further) = lacks-head sep c s h in rw (other, split-lacks sep s further) refl

lacks-append :
    (sep : ℕ) (s t : String)
    → lacks sep s ≡ true
    → lacks sep t ≡ true
    → lacks sep (append s t) ≡ true
lacks-append sep String.[] t h k = rw nil-append k
lacks-append sep (String.◌∷◌ c s) t h k =
    let (other, further) = lacks-head sep c s h in
    rw (cons-append, other) (lacks-append sep s t further k)

dashed_lacks : (rest : String) → lacks b':' rest ≡ true → lacks b':' (String.◌∷◌ "-" rest) ≡ true
dashed_lacks rest h = h

starts_with-append : (s t : String) → starts_with (codes s) (codes (append s t)) ≡ true
unfolding starts_with
starts_with-append String.[] t = refl
starts_with-append (String.◌∷◌ c s) t = rw cons-append (ground (arith, starts_with-append s t))

prefix_parts :
    (s : String)
    → append free_capacity_prefix s
      ≡ append "beemesh" (String.◌∷◌ "-" (append "free" (String.◌∷◌ "-" (append "capacity" s))))
prefix_parts s =
    append_assoc "beemesh" "-free-capacity" s
    ∙ ap (append "beemesh") (
        cons-append "-" "free-capacity" s
        ∙ ap (String.◌∷◌ "-")
            (append_assoc "free" "-capacity" s ∙ ap (append "free") (cons-append "-" "capacity" s)))

dashes :
    (rest : String)
    → dash_part (split b'-' (append free_capacity_prefix (String.◌∷◌ "-" rest))) ≡ some "free"
unfolding dash_part
dashes rest =
    let behind = append "capacity" (String.◌∷◌ "-" rest) in
    rw
      (
        prefix_parts (String.◌∷◌ "-" rest),
        split-append b'-' "-" "beemesh" (append "free" (String.◌∷◌ "-" behind)) refl refl,
        split-append b'-' "-" "free" behind refl refl,
      )
      refl

-- An id of the other form, the prefix and a dash before the task, is read as the manifest `free`,
-- whatever the task: the prefix itself has dashes.
extract_dashed :
    (rest : String)
    → lacks b':' rest ≡ true
    → extract_manifest_id_from_request_id (append free_capacity_prefix (append "-" rest))
      ≡ some "free"
unfolding extract_manifest_id_from_request_id
extract_dashed rest plain = rw (dash-append rest) (
    rw
      (split-lacks b':' (append free_capacity_prefix (String.◌∷◌ "-" rest)) (
        lacks-append b':' free_capacity_prefix (String.◌∷◌ "-" rest) refl
          (dashed_lacks rest plain)))
      (unfold colon_part or_dashed in
        rw (starts_with-append free_capacity_prefix (String.◌∷◌ "-" rest)) (dashes rest)))
