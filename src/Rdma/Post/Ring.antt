-- ===== src/Rdma/Post/Ring.antt =====
-- `post_sends` and `post_recvs` on a ring of requests.
use ibverb_prototype.Prelude.{
  ℕ, zero, suc, ◌+◌, ◌-◌, ◌%◌, ◌≤◌, ◌<◌, ◌≡◌, ◌≢◌, refl, sym, ap, ap₂, ◌∙◌, arith, Bool, none, some,
  List, [], ◌∷◌, get_elem?, length, set, map, get_elem?-set_self, get_elem?-set_ne, set-set,
  set-get_elem?,
}
use native.Mathlib.Nat.{mod-add-mod, mod-eq_of_lt, mod-eq-sub-mod, mod-lt}
use native.Mathlib.Decide.{dec_lt}
use ibverb_prototype.Rdma.Request.{Linked}
use ibverb_prototype.Rdma.Post.{walk, last_index, post}

-- The count identifiers from h on, going round at n.
abbrev pub window : ℕ → ℕ → ℕ → List ℕ
window n h zero = []
window n h (suc count) = h ∷ window n ((h + 1) % n) count

-- Fewer than n steps round a ring of n do not come back to the start.
pub steps_differ : (n h k : ℕ) → h < n → 0 < k → k < n → (h + k) % n ≢ h
steps_differ n h k hn pos kn = elim (dec_lt (h + k) n) [
  | yes below ↦ omega (arith, mod-eq_of_lt below)
  | no above ↦ omega (
    arith,
    mod-eq-sub-mod {n = h + k} {m = n} (omega arith),
    mod-eq_of_lt {n = h + k - n} {m = n} (omega arith),
  )
]

module _ {ℓ} {A : Type ℓ} ⦃l : Linked A⦄ where
  -- Request i of the n points to the next one, the last to the first.
  pub record IsRing (n : ℕ) (rs : List A) : Type ℓ where
    pub size : length rs ≡ n
    pub entry :
        (i : ℕ)
        → i < n
        → (r : A) × (get_elem? rs i ≡ some r) × (l.id r ≡ i) × (l.get_next r ≡ some ((i + 1) % n))

  walk_end :
      (fuel : ℕ) (cut : List A) (i : ℕ) (r : A)
      → get_elem? cut i ≡ some r
      → l.get_next r ≡ none
      → walk (suc fuel) cut i ≡ some (r ∷ [])
  unfolding walk
  walk_end fuel cut i r e last = ground arith

  walk_on :
      (fuel : ℕ) (cut : List A) (i : ℕ) (r : A) (j : ℕ) (chain : List A)
      → get_elem? cut i ≡ some r
      → l.get_next r ≡ some j
      → walk fuel cut j ≡ some chain
      → walk (suc fuel) cut i ≡ some (r ∷ chain)
  unfolding walk
  walk_on fuel cut i r j chain e next later = ground arith

  -- From i, the chain that is cut at the last of `suc count` requests is those requests.
  walk-window :
      (n last : ℕ) (rs cut : List A) (fuel count i : ℕ)
      → IsRing n rs
      → ((j : ℕ) → j ≢ last → get_elem? cut j ≡ get_elem? rs j)
      → ((r : A) × (get_elem? cut last ≡ some r) × (l.id r ≡ last) × (l.get_next r ≡ none))
      → i < n
      → count < n
      → count < fuel
      → last ≡ (i + count) % n
      → (chain : List A) × (walk fuel cut i ≡ some chain)
        × (map l.id chain ≡ window n i (suc count))
  walk-window n last rs cut zero count i ring same end hi hc hf e = absurd (omega arith)
  walk-window n last rs cut (suc fuel) zero i ring same (r, found, named, ends) hi hc hf e =
      let at_end : last ≡ i = e ∙ ap (λ m. m % n) (omega arith) ∙ mod-eq_of_lt hi in
      (
        r ∷ [],
        walk_end fuel cut i r (ap (get_elem? cut) (sym at_end) ∙ found) ends,
        ap (λ m. m ∷ []) (named ∙ at_end),
      )
  walk-window n last rs cut (suc fuel) (suc count) i ring same end hi hc hf e =
      let (r, found, named, next) = ring.entry i hi in
      let moved : i ≢ last =
        λ q. steps_differ n i (suc count) hi (omega arith) hc (sym e ∙ sym q) in
      let (chain, walked, names) =
        walk-window n last rs cut fuel count ((i + 1) % n) ring same end
          (mod-lt (i + 1) (omega arith)) (omega arith) (omega arith)
          (e ∙ ap (λ m. m % n) (omega arith) ∙ sym (mod-add-mod (i + 1) n count)) in
      (
        r ∷ chain,
        walk_on fuel cut i r ((i + 1) % n) chain (same i moved ∙ found) next walked,
        ap₂ ◌∷◌ named names,
      )

  module _ {κ} {Q : Type κ} (ibv_post : List A → Q → Bool × Q) (n start count : ℕ) (rs : List A)
      (q : Q) (ring : IsRing n rs) (inside : start < n) (some_asked : 0 < count)
      (at_most : count ≤ n) where
    last : ℕ
    last = (start + count - 1) % n

    last_index-last : last_index n start count ≡ some last
    unfolding last_index last
    last_index-last = ground arith

    last-lt : last < n
    unfolding last
    last-lt = mod-lt (start + count - 1) (omega arith)

    r : A
    r = (ring.entry last last-lt).0

    found : get_elem? rs last ≡ some r
    unfolding r
    found = (ring.entry last last-lt).1

    cut : List A
    cut = set rs last (l.set_next r none)

    behind_cut : get_elem? cut last ≡ some (l.set_next r none)
    unfolding cut
    behind_cut = get_elem?-set_self rs last (l.set_next r none) (omega (arith, ring.size, last-lt))

    walked :
        (chain : List A) × (walk (length rs) cut start ≡ some chain)
        × (map l.id chain ≡ window n start (suc (count - 1)))
    unfolding cut r
    walked =
        walk-window n last rs cut (length rs) (count - 1) start ring
          (λ j ne. get_elem?-set_ne rs last j (l.set_next r none) (λ e. ne (sym e)))
          (
            l.set_next r none,
            behind_cut,
            l.id-set r none ∙ (ring.entry last last-lt).2,
            l.get-set r none,
          )
          inside (omega arith) (omega (arith, ring.size))
          (unfold last in ap (λ m. m % n) (omega arith))

    restored : set cut last (l.set_next (l.set_next r none) (l.get_next r)) ≡ rs
    unfolding cut
    restored =
        set-set rs last (l.set_next r none) (l.set_next (l.set_next r none) (l.get_next r))
        ∙ ap (set rs last) (l.set-set r none)
        ∙ set-get_elem? rs last r found

    run :
        post ibv_post n start count rs q
        ≡ some (
          (ibv_post walked.0 q).0,
          set cut last (l.set_next (l.set_next r none) (l.get_next r)),
          (ibv_post walked.0 q).1,
        )
    unfolding post last r walked cut
    run = rw (last_index-last, found, walked.1, behind_cut) refl

    -- On a ring of n requests, with a start inside it and between 1 and n requests asked for: the
    -- library gets the requests with the next `count` identifiers from `start` on, going round at
    -- n; the result and the library's state are the library's; and the ring is as it was, whether
    -- the library accepts the requests or not. No access leaves the array.
    pub post-window :
        (chain : List A) × (map l.id chain ≡ window n start count)
        × (post ibv_post n start count rs q ≡ some ((ibv_post chain q).0, rs, (ibv_post chain q).1))
    post-window = (
      walked.0,
      walked.2 ∙ ap (window n start) (let e : suc (count - 1) ≡ count = omega arith in e),
      run ∙ ap (λ rs'. some ((ibv_post walked.0 q).0, rs', (ibv_post walked.0 q).1)) restored,
    )
