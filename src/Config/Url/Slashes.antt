-- ===== src/Config/Url/Slashes.antt =====
-- The loop of `normalize_path` that pops the slashes at the end comes to its end.
use subspace_daemon.Base.{
  Bool, Bool-cases, String, arith, false, inl, inr, not, suc, text_length, true, zero, ℕ, ◌&&◌, ◌<◌,
  ◌==◌, ◌≡◌, ◌≤◌,
}
use subspace_daemon.Config.Url.{pop, ends_with_slash, pop_slashes}

-- the condition under which the loop goes on
abbrev goes_on : String → Bool
goes_on s = ends_with_slash s && not (s == "/")

text_length-pop-lt : (s : String) → 0 < text_length s → text_length (pop s) < text_length s
text_length-pop-lt String.[] h = absurd (omega (arith, h))
text_length-pop-lt (String.◌∷◌ c String.[]) h = omega arith
text_length-pop-lt (String.◌∷◌ c (String.◌∷◌ d s)) h =
    let rest = text_length-pop-lt (String.◌∷◌ d s) (omega arith) in omega (arith, rest)

goes_on-length : (s : String) → goes_on s ≡ true → 0 < text_length s
goes_on-length String.[] h = absurd (ground (arith, h))
goes_on-length (String.◌∷◌ c s) h = omega arith

pop_slashes_more :
    (fuel : ℕ) (s : String) → text_length s ≤ fuel → goes_on (pop_slashes fuel s) ≡ false
unfolding pop_slashes
pop_slashes_more zero s h = elim (Bool-cases (goes_on s)) [
  | inl on ↦ absurd (omega (arith, h, goes_on-length s on))
  | inr over ↦ over
]
pop_slashes_more (suc fuel) s h = elim (Bool-cases (goes_on s)) [
  | inl on ↦
      rw (pop_slashes, on)
        (pop_slashes_more fuel (pop s)
          (omega (arith, h, text_length-pop-lt s (goes_on-length s on))))
  | inr over ↦ rw (pop_slashes, over) over
]

-- With as many steps as the text has characters, the loop stops only where its condition fails: at
-- a text that does not end in a slash, or that is a single slash.
pop_slashes_enough : (s : String) → goes_on (pop_slashes (text_length s) s) ≡ false
pop_slashes_enough s = pop_slashes_more (text_length s) s (omega arith)
