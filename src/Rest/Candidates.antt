-- ===== src/Rest/Candidates.antt =====
-- The candidates that a node names for a task.
use beemesh.Prelude.{
  false, true, not, ◌&&◌, Option, none, some, ◌≤◌, ◌≡◌, ◌≢◌, ◌⊎◌, refl, Bytes, String, Bool, true,
  some, List, [], ◌∷◌, ◌++◌, arith, leb, str_eq, eq_iff, length, length-append, any, All,
  Bool-cases, Option-cases, inl, inr,
}
use beemesh.Text.{codes}
use beemesh.Text.Affixes.{before, after}
use beemesh.Rest.{
  EnvelopeMetadata, candidates_response, Answer, create_response_for_envelope_metadata,
}
use beemesh.Rest.Deletion.{Received, received, closed, timed_out}
use beemesh.Rest.Forwarding.{can_cut, collect, candidate, candidates, get_candidates}
use beemesh.Rest.Lifecycle.{same_reply}

-- the text was received
abbrev pub Heard : List (Received String) → String → Type 0
Heard [] text = ⊥
Heard (received peer ∷ rest) text = (text ≡ peer) ⊎ Heard rest text
Heard (closed ∷ rest) text = Heard rest text
Heard (timed_out ∷ rest) text = Heard rest text

All-append {ℓ κ} :
    {A : Type ℓ} (P : A → Type κ) (xs ys : List A) → All P xs → All P ys → All P (xs ++ ys)
All-append P [] ys all more = more
All-append P (x ∷ xs) ys all more = (all.0, All-append P xs ys all.1 more)

-- at most five responders, all of which have the property
abbrev Collected : (String → Type 0) → List String → Type 0
Collected P rs = (length rs ≤ 5) × All P rs

-- a text was received that the log line cannot cut
abbrev pub Uncut : (info : Bool) → List (Received String) → Type 0
Uncut info replies =
    (info ≡ true) × ((text : String) × Heard replies text × (can_cut 16 (codes text) ≡ false))

-- a loop ends with responders, or panics at a text that it received
abbrev Ends : (String → Type 0) → Bool → List (Received String) → Option (List String) → Type 0
Ends P info replies o =
    ((rs : List String) × (o ≡ some rs) × Collected P rs) ⊎ ((o ≡ none) × Uncut info replies)

collect-Ends :
    (P : String → Type 0) (info : Bool) (replies : List (Received String)) (rs : List String)
    → ((text : String) → Heard replies text → P text)
    → length rs ≤ 4
    → All P rs
    → Ends P info replies (collect info replies rs)
unfolding collect
collect-Ends P info [] rs heard few all = inl (rs, refl, (omega arith, all))
collect-Ends P info (closed ∷ rest) rs heard few all = inl (rs, refl, (omega arith, all))
collect-Ends P info (timed_out ∷ rest) rs heard few all = inl (rs, refl, (omega arith, all))
collect-Ends P info (received peer ∷ rest) rs heard few all =
    let later : (text : String) → Heard rest text → P text = λ text h. heard text (inr h) in
    let more = All-append P rs (peer ∷ []) all (heard peer (inl refl), tt) in
    let l = length-append rs (peer ∷ []) in
    elim (Bool-cases (info && not (can_cut 16 (codes peer)))) [
      | inl panics ↦ rw panics (inr (refl, (ground arith, (peer, inl refl, ground arith))))
      | inr cuts ↦ elim (Bool-cases (any (λ r. str_eq r peer) rs)) [
        | inl known ↦ rw (cuts, known) (widen (collect-Ends P info rest rs later few all))
        | inr unknown ↦ elim (Bool-cases (leb 5 (length (rs ++ peer ∷ [])))) [
          | inl full ↦
              rw (cuts, unknown, full) (inl (rs ++ peer ∷ [], refl, (omega (arith, l), more)))
          | inr room ↦
              rw (cuts, unknown, room)
                (widen (collect-Ends P info rest (rs ++ peer ∷ []) later (ground (arith, l)) more))
        ]
      ]
    ]
  where
    widen : {o : Option (List String)} → Ends P info rest o → Ends P info (received peer ∷ rest) o
    widen (inl done) = inl done
    widen (inr (e, (logged, (text, h, uncut)))) = inr (e, (logged, (text, inr h, uncut)))

-- the candidate was received with its key, which is not empty, behind its first colon
abbrev pub Named : List (Received String) → String × String → Type 0
Named replies c =
    (text : String) × Heard replies text
    × (before ":" text ≡ c.0)
    × (after ":" text ≡ some c.1)
    × (c.1 ≢ "")

candidate-Named :
    (replies : List (Received String)) (r : String)
    → Heard replies r
    → (length (candidate r) ≤ 1) × All (Named replies) (candidate r)
unfolding candidate
candidate-Named replies r heard = elim (Option-cases (after ":" r)) [
  | inl bare ↦ rw (candidate, bare) (omega arith, tt)
  | inr (key, there) ↦ elim (Bool-cases (str_eq key "")) [
    | inl empty ↦ rw (candidate, there, empty) (omega arith, tt)
    | inr full ↦
        rw (candidate, there, full)
          (omega arith, ((r, heard, refl, there, λ e. ground (arith, eq_iff key "")), tt))
  ]
]

candidates-Named :
    (replies : List (Received String)) (rs : List String)
    → All (Heard replies) rs
    → (length (candidates rs) ≤ length rs) × All (Named replies) (candidates rs)
unfolding candidates
candidates-Named replies [] all = (omega arith, tt)
candidates-Named replies (r ∷ rs) all =
    let (one, first) = candidate-Named replies r all.0 in
    let (few, rest) = candidates-Named replies rs all.1 in
    (
      omega (arith, one, few, length-append (candidate r) (candidates rs)),
      All-append (Named replies) (candidate r) (candidates rs) first rest,
    )

-- Whatever comes back on the reply channel, a search ends in one of two ways. At most five candidates
-- are named, and each was received with its key: the one stands before the first colon of a text,
-- the other, which is not empty, behind it. Or the handler panics, since the level `info` is logged
-- and a text was received that has no cut at 16 bytes. Encryption does not change the table.
pub get_candidates-Named :
    (info : Bool) (encrypts : Bytes → Bool) (replies : List (Received String))
    (metadata : EnvelopeMetadata)
    → ((answer : Answer) × (l : List (String × String)) × (get_candidates info encrypts replies
            metadata
          ≡ some answer)
        × (answer.reply ≡ candidates_response true l)
        × (length l ≤ 5)
        × All (Named replies) l)
      ⊎ ((get_candidates info encrypts replies metadata ≡ none) × Uncut info replies)
unfolding get_candidates
get_candidates-Named info encrypts replies metadata =
    elim (collect-Ends (Heard replies) info replies [] (λ text h. h) (omega arith) tt) [
      | inl (rs, done, (few, heard)) ↦
          let (fewer, named) = candidates-Named replies rs heard in
          let reply = candidates_response true (candidates rs) in
          inl (
            create_response_for_envelope_metadata encrypts reply metadata,
            candidates rs,
            rw (done, get_candidates) refl,
            same_reply encrypts reply metadata,
            omega (arith, few, fewer),
            named,
          )
      | inr (panics, uncut) ↦ inr (rw (panics, get_candidates) refl, uncut)
    ]
