-- ===== src/Collector/Sweeping/Loop.antt =====
-- The loop of the sweep, by induction on its fuel.
use jelatine.Common.{
  ℕ, zero, suc, ◌+◌, ◌-◌, ◌*◌, ◌%◌, ◌^◌, ◌≤◌, ◌<◌, ◌≡◌, ◌≢◌, inl, inr, refl, ap, sym, ◌∙◌, bit_and,
  true, false, some, List, ◌∷◌, arith, ltb, ◌==◌, if◌then◌else◌, length-set, Bool-cases, ==-refl,
}
use mathlib.Core.Path.{subst}
use jelatine.Header.{is_object, is_marked, clear_mark}
use jelatine.Collector.Objects.{has}
use jelatine.Memory.Chunks.{put_chunk}
use jelatine.Memory.Chunks.Sum.{IsValid}
use jelatine.Memory.Chunks.Valid.{put_chunk-IsValid}
use jelatine.Memory.Chunks.Extent.{holds, holds-IsAdditive}
use jelatine.Memory.Heap.{bitmap_clear}
use jelatine.Collector.{write, Class}
use jelatine.Collector.Sweeping.{
  nref_size, ref_n, Sweep, sweep_marked, sweep_dead, sweep_word, sweep_loop,
}
use jelatine.Collector.Sweeping.Layout.{IsLaid, live, nref_size-words, unscanned}
use jelatine.Collector.Sweeping.Steps.{
  Swept, Sweeps, join_three, covered-put_chunk, cleared, stop-Swept, skip_word, first_header,
  sweep_marked-eq,
}

module _ (classes : ℕ → Class) where
  module _ (fuel : ℕ) (rec : Sweeps classes fuel) (from : ℕ) (objs : List ℕ) (s : Sweep)
      (place : (s.end ≤ from) × (from ≤ s.scan) × ((s.scan - s.end) % 8 ≡ 0)) (pos : 0 < s.end)
      (top : s.heap.end < 2 ^ 64) (v : IsValid s.heap.bins)
      (few : s.heap.end - s.scan + 8 ≤ 8 * suc fuel) (inside : s.scan < s.heap.end)
      (back : from + 8 * ref_n classes s.memory s.scan ≤ s.scan)
      (fits : s.scan + (8 + nref_size classes s.memory s.scan) ≤ s.heap.end)
      (laid : IsLaid classes s.memory
        (s.scan + (8 + nref_size classes s.memory s.scan))
        (s.scan + (8 + nref_size classes s.memory s.scan))
        objs
        s.heap.end) where
    marked-Swept :
        is_marked (s.memory s.scan) ≡ true
        → (s' : Sweep) × (sweep_loop fuel classes (sweep_marked classes s) ≡ some s')
          × Swept classes (s.scan ∷ objs) s s'
    unfolding live has
    marked-Swept t =
        let refs : ℕ = ref_n classes s.memory s.scan in
        let nref : ℕ = nref_size classes s.memory s.scan in
        let gap : ℕ = s.scan - 8 * refs - s.end in
        let behind : ℕ = s.scan + (8 + nref) in
        let nref8 : nref % 8 ≡ 0 = nref_size-words classes s.memory s.scan in
        let s1 : Sweep = record s {
          memory =
              if is_object (s.memory s.scan)
              then write s.memory s.scan (clear_mark (s.memory s.scan))
              else s.memory;
          heap = record s.heap { bins = put_chunk s.end gap s.heap.bins };
          scan = behind;
          end = behind;
          reclaimed = s.reclaimed + gap;
          in_use = s.in_use + (refs * 8 + 8 + nref);
          max_size = if ltb s.max_size gap then gap else s.max_size;
        } in
        let kept : IsLaid classes s1.memory behind behind objs s.heap.end
            × ((b : ℕ) → live classes s1.memory b objs ≡ live classes s.memory b objs) =
          elim (Bool-cases (is_object (s.memory s.scan))) [
            | inl o ↦ rw o (
                unscanned classes s.memory s.scan (clear_mark (s.memory s.scan)) objs behind behind
                  s.heap.end (omega arith) laid)
            | inr o ↦ rw o (laid, λ b. refl)
          ] in
        let others : (x : ℕ) → s.scan ≢ x → s1.memory x ≡ s.memory x = (λ x ne.
          let other : (s.scan == x) ≡ false = ground arith in
          elim (Bool-cases (is_object (s.memory s.scan))) [
            | inl o ↦ rw (o, other) refl
            | inr o ↦ rw o refl
          ]) in
        let (s', e, w) =
          rec behind objs s1 kept.0 (omega arith, omega arith, omega arith) (omega arith) top
            (put_chunk-IsValid s.end gap s.heap.bins v pos (omega arith) (omega arith))
            (omega arith) in
        (
          s',
          rw (sweep_marked-eq classes s (omega arith) place.2 (omega arith)) e,
          record {
            covers = λ b.
                let total : s'.end - s.end ≡ gap + ((8 * refs + (8 + nref)) + (s'.end - behind)) =
                  (let f = w.forward in omega arith) in
                rw (t, total)
                  (omega (
                    arith,
                    w.covers b,
                    kept.1 b,
                    covered-put_chunk s.end gap s.heap.bins v (omega arith) b,
                    join_three (holds b) (holds-IsAdditive b) s.end gap (s.scan - 8 * refs)
                        (8 * refs + (8 + nref)) behind (s'.end - behind) (omega arith)
                        (omega arith),
                  ));
            bins = w.bins;
            forward = (let f = w.forward in omega arith);
            inside = w.inside;
            words = (let f = w.words in let g = w.forward in omega arith);
            same = w.same;
            bits = w.bits;
            used = (let f = w.used in let g = w.forward in omega arith);
            behind = λ x lt. w.behind x (omega arith) ∙ others x (omega arith);
            clear = λ x h word o. elim (Bool-cases (s.scan == x)) [
              | inl here ↦
                  let same : s.scan ≡ x = ground arith in
                  let o' : is_object (s.memory s.scan) ≡ true =
                    ap (λ y. is_object (s.memory y)) same ∙ o in
                  rw (← same, w.behind s.scan (omega arith), o', ==-refl s.scan)
                    (cleared (s.memory s.scan) (rw same word))
              | inr there ↦
                  let ne : s.scan ≢ x = ground arith in
                  let h' : has objs x ≡ true = rw there at h in
                  w.clear x h' (rw (others x ne) word) (ap is_object (others x ne) ∙ o)
            ];
          },
        )

    dead-Swept :
        is_marked (s.memory s.scan) ≡ false
        → (s' : Sweep) × (sweep_loop fuel classes (sweep_dead classes s) ≡ some s')
          × Swept classes (s.scan ∷ objs) s s'
    unfolding live has sweep_dead bitmap_clear
    dead-Swept f =
        let behind : ℕ = s.scan + (8 + nref_size classes s.memory s.scan) in
        let nref8 : nref_size classes s.memory s.scan % 8 ≡ 0 =
          nref_size-words classes s.memory s.scan in
        let s1 : Sweep = sweep_dead classes s in
        let (s', e, w) =
          rec behind objs s1 laid (omega arith, omega arith, omega arith) pos top v (omega arith) in
        (
          s',
          e,
          record {
            covers = λ b. rw f (omega (arith, w.covers b));
            bins = w.bins;
            forward = w.forward;
            inside = w.inside;
            words = w.words;
            same = w.same;
            bits = w.bits ∙ length-set s.heap.bitmap _ _;
            used = w.used;
            behind = λ x lt. w.behind x (omega arith);
            clear = λ x h word o. elim (Bool-cases (s.scan == x)) [
              | inl here ↦
                  let same : s.scan ≡ x = ground arith in
                  rw (← same, w.behind s.scan (omega arith)) f
              | inr there ↦ let h' : has objs x ≡ true = rw there at h in w.clear x h' word o
            ];
          },
        )

  pub loop-Swept : (fuel : ℕ) → Sweeps classes fuel
  unfolding sweep_loop sweep_word
  loop-Swept zero from objs s laid place pos top v few = absurd (omega arith)
  loop-Swept (suc fuel) from objs s laid place pos top v few =
      elim (Bool-cases (ltb s.scan s.heap.end)) [
        | inr done ↦ (
          s,
          rw (sweep_loop, done) refl,
          stop-Swept classes from objs s laid (place.0, place.1) v (ground arith),
        )
        | inl more ↦ elim (Bool-cases (bit_and (s.memory s.scan) 3 == 0)) [
          | inl low ↦
              let s1 : Sweep = record s { scan = s.scan + 8 } in
              let (s', e, w) =
                loop-Swept fuel from objs s1
                  (skip_word classes s.memory from s.scan objs s.heap.end laid (ground arith)
                    (ground arith))
                  (place.0, omega arith, omega arith) pos top v (ground arith) in
              (
                s',
                rw (sweep_loop, more, sweep_word, low) e,
                record {
                  covers = w.covers;
                  bins = w.bins;
                  forward = w.forward;
                  inside = w.inside;
                  words = w.words;
                  same = w.same;
                  bits = w.bits;
                  used = w.used;
                  behind = λ x lt. w.behind x (omega arith);
                  clear = w.clear;
                },
              )
          | inr high ↦
              let (rest, e, back, fits, laid') =
                first_header classes s.memory from s.scan objs s.heap.end laid (ground arith)
                  (ground arith) in
              subst
                (λ o.
                  (s' : Sweep) × (sweep_loop (suc fuel) classes s ≡ some s') × Swept classes o s s')
                (sym e)
                (elim (Bool-cases (is_marked (s.memory s.scan))) [
                  | inl t ↦
                      rw (sweep_loop, more, sweep_word, high, t)
                        (marked-Swept fuel (loop-Swept fuel) from rest s place pos top v few
                          (ground arith) back fits laid' t)
                  | inr f ↦
                      rw (sweep_loop, more, sweep_word, high, f)
                        (dead-Swept fuel (loop-Swept fuel) from rest s place pos top v few
                          (ground arith) back fits laid' f)
                ])
        ]
      ]
