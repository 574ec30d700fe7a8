-- ===== src/Prelude/Fraction.antt =====
-- An instance of the float64 interface for the tests: fractions of natural numbers, compared by
-- cross-multiplication. It stands for float64 in no statement about the code.
use docker_net_doctor.Prelude.{ℕ, ◌+◌, ◌-◌, ◌*◌, ◌/◌, ◌^◌, ltb, leb}
use docker_net_doctor.Prelude.Int.{pos, pos_part}
use docker_net_doctor.Prelude.Float.{Float64}

pub record Fraction : Type 0 where
  pub top : ℕ
  pub bottom : ℕ

abbrev pub fractions : Float64
fractions = record {
  Float = Fraction;
  of_int = λ n. record { top = pos_part n; bottom = 1 };
  decimal = λ n k. record { top = n; bottom = 10 ^ k };
  sub = λ a b. record { top = a.top * b.bottom - b.top * a.bottom; bottom = a.bottom * b.bottom };
  add = λ a b. record { top = a.top * b.bottom + b.top * a.bottom; bottom = a.bottom * b.bottom };
  mul = λ a b. record { top = a.top * b.top; bottom = a.bottom * b.bottom };
  div = λ a b. record { top = a.top * b.bottom; bottom = a.bottom * b.top };
  lt = λ a b. ltb (a.top * b.bottom) (b.top * a.bottom);
  le = λ a b. leb (a.top * b.bottom) (b.top * a.bottom);
  to_seconds = λ d. record { top = pos_part d; bottom = 1000000000 };
  pow = λ a n. record { top = a.top ^ n.top; bottom = a.bottom ^ n.top };
  to_int = λ a. pos (a.top / a.bottom);
}
