-- ===== src/Signals/Tests.antt =====
-- When a loop stops.
use ibverb_prototype.Prelude.{
  ℕ, zero, suc, ◌≡◌, refl, ap, true, false, List, [], ◌∷◌, ◌++◌, Bool, replicate,
}
use ibverb_prototype.Signals.{loop_rounds_from, loop_rounds, packet_loop}

loop_rounds_silence :
    (n : ℕ) (later : List Bool)
    → loop_rounds_from packet_loop (replicate n false ++ (true ∷ later)) ≡ n
unfolding loop_rounds_from
loop_rounds_silence zero later = refl
loop_rounds_silence (suc n) later = ap suc (loop_rounds_silence n later)

-- The first signal stops a loop, and a second one changes nothing.
rounds_to_signal : loop_rounds (false ∷ false ∷ true ∷ false ∷ true ∷ []) ≡ 2
unfolding loop_rounds
rounds_to_signal = loop_rounds_silence 2 (false ∷ true ∷ [])
