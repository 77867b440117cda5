-- ===== src/Base/Modulo.antt =====
-- Remainders: powers of two, and numbers that are less than the modulus apart.
use Prim.Native.Nat.{◌∣◌}
use mathlib.Core.Path.{subst}
use native.Mathlib.Nat.{
  div-add-mod, dvd_refl, dvd-mul_right_of_dvd, pow-suc, mul-suc, mul-le-mul_left,
}
use flash_relay.Base.{
  ℕ, zero, suc, ◌+◌, ◌/◌, ◌%◌, ◌^◌, ◌≤◌, ◌<◌, ◌≡◌, ◌≢◌, sym, inl, inr, arith, ltb, ltb→lt,
  Bool-cases, ◌==◌,
}

pub two_pow-dvd : (k e : ℕ) → k ≤ e → 2 ^ k ∣ 2 ^ e
two_pow-dvd k zero h =
    let same : k ≡ 0 = omega arith in subst (λ x. 2 ^ k ∣ 2 ^ x) same (dvd_refl (2 ^ k))
two_pow-dvd k (suc e) h = elim (Bool-cases (k == suc e)) [
  | inl eq ↦
      let same : k ≡ suc e = ground (arith, eq) in
      subst (λ x. 2 ^ k ∣ 2 ^ x) same (dvd_refl (2 ^ k))
  | inr apart ↦
      subst (λ x. 2 ^ k ∣ x) (sym (pow-suc 2 e))
        (dvd-mul_right_of_dvd (2 ^ k) (two_pow-dvd k e (ground arith)) 2)
]

-- Two numbers that are less than n apart differ modulo n.
pub mod_apart : (n a b : ℕ) → a < b → b < a + n → a % n ≢ b % n
mod_apart n a b less near same =
    let da = div-add-mod a n in
    let db = div-add-mod b n in
    elim (Bool-cases (ltb (a / n) (b / n))) [
      | inl up ↦ omega (arith, da, db, same, mul-suc n (a / n), mul-le-mul_left n (ltb→lt _ _ up))
      | inr down ↦
          omega (arith, da, db, same, mul-le-mul_left {m = b / n} {n = a / n} n (ground arith))
    ]
