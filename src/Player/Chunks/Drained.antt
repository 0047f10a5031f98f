-- ===== src/Player/Chunks/Drained.antt =====
-- The loop of `destroy_pcm_queue` in components/lightsnapcast/player.c.
use snapclient.Base.{
  ℕ, zero, suc, ◌+◌, ◌<◌, ◌==◌, ◌≡◌, refl, sym, ap, ◌∙◌, inl, inr, Bool, true, Bool-cases, Option,
  none, some, List, [], ◌∷◌, length, ltb, ltb-false, lt→ltb, if◌then◌else◌, arith,
}
use snapclient.Rtos.{Queue, IsQueue, Received}
use snapclient.Player.Memory.{PcmChunk}
use snapclient.Player.Chunks.{
  PlayerState, free_pcm_chunk, drain, drain_on, deleted, destroy_on, destroy_pcm_queue,
}
use snapclient.Player.Chunks.Counting.{count, queued}

-- A list of chunks is freed in its order.
unfoldable pub free_all : {Q M : Type 0} → List PcmChunk → PlayerState Q M → PlayerState Q M
free_all [] s = s
free_all (c ∷ cs) s = free_all cs (free_pcm_chunk c s)

free_all-owned :
    {Q M : Type 0} (test : PcmChunk → Bool) (cs : List PcmChunk) (s : PlayerState Q M)
    → count test (free_all cs s).freed ≡ count test s.freed + count test cs
unfolding free_all count free_pcm_chunk
free_all-owned test [] s = omega arith
free_all-owned test (c ∷ cs) s = omega (arith, free_all-owned test cs (free_pcm_chunk c s))

empty-of-length : {A : Type 0} (xs : List A) → length xs ≡ 0 → xs ≡ []
empty-of-length [] e = refl
empty-of-length (x ∷ xs) e = absurd (omega (arith, e))

abbrev answer : {S : Type 0} → S → Option (ℕ × S) → ℕ × S
answer s none = (0, s)
answer s (some r) = r

is_some : {A : Type 0} {a : A} → ¬ (none ≡ some a)
is_some e = cc

module _ {Q M : Type 0} (queue : Queue PcmChunk Q) (items : Q → List PcmChunk) where
  -- What the loop comes to, with enough fuel or without.
  abbrev drained : ℕ → List PcmChunk → PlayerState Q M → Option (PlayerState Q M)
  drained fuel cs s = if ltb (length cs) fuel then some (free_all cs s) else none

  drain_on_lem :
      (fuel : ℕ) (old : List PcmChunk) (s : PlayerState Q M) (r : Option PcmChunk × Q)
      → 0 < length old
      → Received items old r
      → ((q : Q) (s' : PlayerState Q M) → drain queue fuel q s' ≡ drained fuel (items q) s')
      → drain_on queue (λ q s'. drain queue fuel q s') s r ≡ drained (suc fuel) old s
  unfolding free_all
  drain_on_lem fuel old s (none, q) more (e, f) ih = absurd (omega (arith, more, ap length e))
  drain_on_lem fuel old s (some c, q) more e ih =
      let k : ltb (length (items q)) fuel ≡ ltb (suc (length (items q))) (suc fuel) =
        ground arith in
      rw (e, ih q (free_pcm_chunk c s), k) refl

  drain_lem :
      (fuel : ℕ) (q : Q) (s : PlayerState Q M)
      → IsQueue queue items
      → drain queue fuel q s ≡ drained fuel (items q) s
  unfolding drain free_all
  drain_lem zero q s law = rw (ltb-false (length (items q)) 0 (omega arith)) refl
  drain_lem (suc fuel) q s law = elim (Bool-cases (queue.waiting q == 0)) [
    | inl none_left ↦
        let e : items q ≡ [] =
          empty-of-length (items q) (ground (arith, none_left, law.counted q)) in
        let k : ltb 0 (suc fuel) ≡ true = ground arith in rw (none_left, e, k) refl
    | inr some_left ↦ rw some_left (
        drain_on_lem fuel (items q) s (queue.receive q) (ground (arith, some_left, law.counted q))
          (law.received q) (λ q' s'. drain_lem fuel q' s' law))
  ]

  abbrev freed_if : List PcmChunk → PlayerState Q M → Bool → Option (ℕ × PlayerState Q M)
  freed_if cs s b = if b then some (1, record (free_all cs s) { queue = none }) else none

  destroy_on_lem :
      (fuel : ℕ) (q : Q) (s : PlayerState Q M)
      → IsQueue queue items
      → destroy_on queue fuel (some q) s ≡ freed_if (items q) s (ltb (length (items q)) fuel)
  destroy_on_lem fuel q s law =
      ap (deleted queue) (drain_lem fuel q s law)
      ∙ elim (Bool-cases (ltb (length (items q)) fuel)) [
        | inl enough ↦ rw enough refl
        | inr short ↦ rw short refl
      ]

  -- The queue is emptied and deleted, and each chunk of it is freed, in its order, if the loop has more
  -- rounds than there are chunks.
  pub destroy_pcm_queue_lem :
      (fuel : ℕ) (q : Q) (s : PlayerState Q M)
      → IsQueue queue items
      → s.queue ≡ some q
      → length (items q) < fuel
      → destroy_pcm_queue queue fuel s ≡ some (1, record (free_all (items q) s) { queue = none })
  unfolding destroy_pcm_queue
  destroy_pcm_queue_lem fuel q s law e h =
      ap (λ o. destroy_on queue fuel o s) e
      ∙ destroy_on_lem fuel q s law
      ∙ ap (freed_if (items q) s) (lt→ltb (length (items q)) fuel h)

  pub destroy-owned :
      (test : PcmChunk → Bool) (fuel code : ℕ) (s s' : PlayerState Q M) (o : Option Q)
      → IsQueue queue items
      → destroy_on queue fuel o s ≡ some (code, s')
      → s.queue ≡ o
      → count test s'.freed + count test (queued items s'.queue)
        ≡ count test s.freed + count test (queued items s.queue)
  unfolding count
  destroy-owned test fuel code s s' none law e k =
      let same : s ≡ s' = ap (λ r. (answer s r).1) e in rw⁻¹ same refl
  destroy-owned test fuel code s s' (some q) law e k =
      elim (Bool-cases (ltb (length (items q)) fuel)) [
        | inl enough ↦
            let all = sym (ap (freed_if (items q) s) enough) ∙ sym (destroy_on_lem fuel q s law) in
            let same : record (free_all (items q) s) { queue = none } ≡ s' =
              ap (λ r. (answer s r).1) (all ∙ e) in
            rw⁻¹ same (
              omega
                (arith, free_all-owned test (items q) s, ap (λ r. count test (queued items r)) k))
        | inr short ↦
            let all = sym (ap (freed_if (items q) s) short) ∙ sym (destroy_on_lem fuel q s law) in
            absurd (is_some (all ∙ e))
      ]
