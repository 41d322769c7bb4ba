-- ===== src/Sat/Solve/Thresholds.antt =====
-- The restart threshold, a `uint32_t` that every restart multiplies.
use fabko.Base.{ℕ, zero, suc, ◌+◌, ◌-◌, ◌*◌, ◌%◌, ◌^◌, ◌≤◌, ◌<◌, ◌≡◌, sym, subst, arith}
use fabko.Sat.Types.{Env, Configuration}

-- The restart threshold after a number of restarts, and the sum of those before.
unfoldable pub doubled : ℕ → ℕ → ℕ
doubled zero t = t
doubled (suc r) t = doubled r (t + t)

le-doubled : (r t : ℕ) → t ≤ doubled r t
unfolding doubled
le-doubled zero t = omega arith
le-doubled (suc r) t = omega (arith, le-doubled r (t + t))

double_word : (a b t : ℕ) → a ≡ t → b ≡ 2 → t + t < 2 ^ 32 → a * b % 2 ^ 32 ≡ t + t
double_word a b t qa qb h = rw (qa, qb) (omega (arith, h))

module _ ⦃e : Env⦄ where
  unfoldable pub raised : Configuration → Configuration
  raised f = record f { restart_threshold = f.restart_threshold * f.restart_multiplier % 2 ^ 32 }

  unfoldable pub threshold_after : ℕ → Configuration → ℕ
  unfolding raised
  threshold_after zero f = f.restart_threshold
  threshold_after (suc k) f = threshold_after k (raised f)

  unfoldable pub total_before : ℕ → Configuration → ℕ
  unfolding raised
  total_before zero f = 0
  total_before (suc k) f = f.restart_threshold + total_before k (raised f)

  -- The threshold does not wrap to 0 within that many conflicts.
  abbrev pub Lasts : ℕ → Configuration → Type 0
  Lasts n f = (k : ℕ) → total_before k f ≤ n → 0 < threshold_after k f

  pub Lasts-raised :
      (n m : ℕ) (f : Configuration) → f.restart_threshold ≤ m → Lasts (n + m) f → Lasts n (raised f)
  unfolding threshold_after total_before
  Lasts-raised n m f le h k b = h (suc k) (omega (arith, le, b))

  pub Lasts-mono : (n m : ℕ) (f g : Configuration) → n ≤ m → g ≡ f → Lasts m f → Lasts n g
  Lasts-mono n m f g le q h k b =
      let b' : total_before k f ≤ n = subst (λ g. total_before k g ≤ n) q b in
      subst (λ g. 0 < threshold_after k g) (sym q) (h k (omega (arith, le, b')))

  pub Lasts-pos : (n : ℕ) (f : Configuration) → Lasts n f → 0 < f.restart_threshold
  unfolding threshold_after total_before
  Lasts-pos n f h = h 0 (omega arith)

  -- A threshold that doubles lasts as long as it does not wrap.
  pub Lasts-doubled :
      (r t n : ℕ) (f : Configuration)
      → f.restart_threshold ≡ t
      → f.restart_multiplier ≡ 2
      → 0 < t
      → doubled r t < 2 ^ 32
      → n + t < doubled r (t + t)
      → Lasts n f
  unfolding threshold_after total_before raised doubled
  Lasts-doubled r t n f et em p small le zero b = omega (arith, et, p)
  Lasts-doubled zero t n f et em p small le (suc k) b = absurd (omega (arith, et, b, le))
  Lasts-doubled (suc r) t n f et em p small le (suc k) b =
      let next : f.restart_threshold * f.restart_multiplier % 2 ^ 32 ≡ t + t =
        double_word f.restart_threshold f.restart_multiplier t et em
          (omega (arith, le-doubled r (t + t), small)) in
      Lasts-doubled r (t + t) (n - t) (raised f) next em (omega (arith, p)) small
        (omega (arith, le, et, b)) k (omega (arith, et, b))
