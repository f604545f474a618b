-- ===== src/Message/Open/Params.antt =====
-- The loop over the optional parameters of an OPEN, against the bytes that serialize writes.
use mathlib.Core.List.{append_assoc, append-nil}
use pathforge.Base.{
  some, subst, All-back, ap, length-take, ◌||◌, take-append-drop, Returns-bind, inr, inl, ltb,
  Bool-cases, lt→ltb, Returns, IsU8, ℕ, zero, suc, ◌+◌, ◌-◌, ◌≤◌, ◌<◌, ◌≡◌, refl, sym, ◌∙◌, List,
  [], ◌∷◌, ◌++◌, ok, arith, length, length-append, All, u8,
}
use pathforge.Bytes.{listed}
use pathforge.Bytes.Listed
use pathforge.Message.Open.{sub_len, read_param, OptionalParam, parse_params, put_params}

-- The parameters as the wire has them.
abbrev pub encode : List OptionalParam → List ℕ
encode [] = []
encode (p ∷ ps) = p.param_type ∷ u8 (length p.value) ∷ (p.value ++ encode ps)

-- A parameter's length fits its length byte.
abbrev pub FitsByte : OptionalParam → Type 0
FitsByte p = length p.value < 256

pub put_params-encode :
    (ps : List OptionalParam) (opt_buf : List ℕ)
    → put_params listed ps opt_buf ≡ opt_buf ++ encode ps
unfolding put_params
put_params-encode [] opt_buf = sym (append-nil opt_buf)
put_params-encode (p ∷ ps) opt_buf =
    put_params-encode ps _
    ∙ append_assoc ((opt_buf ++ (p.param_type ∷ [])) ++ (u8 (length p.value) ∷ [])) p.value
        (encode ps)
    ∙ append_assoc (opt_buf ++ (p.param_type ∷ [])) (u8 (length p.value) ∷ [])
        (p.value ++ encode ps)
    ∙ append_assoc opt_buf (p.param_type ∷ []) (u8 (length p.value) ∷ (p.value ++ encode ps))

sub_len-fits : (left n : ℕ) → n ≤ left → sub_len left n ≡ some (left - n)
unfolding sub_len
sub_len-fits left n h = ground arith

-- One round on a parameter that is there whole.
read_param_whole :
    (a : ℕ) (v t : List ℕ) (left : ℕ)
    → 2 + length v ≤ left
    → read_param listed (a ∷ length v ∷ (v ++ t)) left
      ≡ ok (record { param_type = a; value = v }, t, left - 2 - length v)
unfolding read_param
read_param_whole a v t left h =
    let e : sub_len left 2 ≡ some (left - 2) = sub_len-fits left 2 (omega arith) in
    let k : sub_len (left - 2) (length v) ≡ some (left - 2 - length v) =
      sub_len-fits (left - 2) (length v) (omega arith) in
    ground (arith, e, k, length-append v t, Listed.copy_to_bytes_front v t (length v) refl)

parse_params_step :
    (fuel : ℕ) (body : List ℕ) (left : ℕ) (p : OptionalParam) (b : List ℕ) (l : ℕ)
    (ps : List OptionalParam)
    → 2 ≤ left
    → read_param listed body left ≡ ok (p, b, l)
    → parse_params listed fuel b l ≡ ok ps
    → parse_params listed (suc fuel) body left ≡ ok (p ∷ ps)
unfolding parse_params
parse_params_step fuel body left p b l ps h r e = ground arith

pub parse_params-encode :
    (fuel : ℕ) (ps : List OptionalParam) (rest : List ℕ)
    → All FitsByte ps
    → length (encode ps) ≤ fuel
    → parse_params listed fuel (encode ps ++ rest) (length (encode ps)) ≡ ok ps
unfolding parse_params
parse_params-encode zero [] rest h f = refl
parse_params-encode zero (p ∷ ps) rest h f = absurd (omega arith)
parse_params-encode (suc fuel) [] rest h f = refl
parse_params-encode (suc fuel) (p ∷ ps) rest (hp, hps) f =
    let n : ℕ = length (encode (p ∷ ps)) in
    let e : u8 (length p.value) ≡ length p.value = omega arith in
    let l : n - 2 - length p.value ≡ length (encode ps) =
      omega (arith, length-append p.value (encode ps)) in
    rw (e, append_assoc p.value (encode ps) rest)
      (parse_params_step fuel _ n p (encode ps ++ rest) (length (encode ps)) ps (omega arith)
        (read_param_whole p.param_type p.value (encode ps ++ rest) n
            (omega (arith, length-append p.value (encode ps)))
          ∙ rw l)
        (parse_params-encode fuel ps rest hps (omega (arith, length-append p.value (encode ps)))))

-- What one round took off the front of the body.
abbrev IsParamOf : List ℕ → ℕ → OptionalParam × List ℕ × ℕ → Type 0
IsParamOf body left (p, b, l) =
    (l + 2 + length p.value ≡ left) × (body ≡ p.param_type ∷ length p.value ∷ (p.value ++ b))

listed-IsParamOf :
    (body : List ℕ) (left : ℕ)
    → 2 ≤ left
    → left ≤ length body
    → Returns (IsParamOf body left) (read_param listed body left)
unfolding read_param
listed-IsParamOf [] left h k = absurd (omega arith)
listed-IsParamOf (a ∷ []) left h k = absurd (omega arith)
listed-IsParamOf (a ∷ n ∷ s) left h k = elim (Bool-cases (ltb (length s) n || ltb (left - 2) n)) [
  | inl short ↦ rw (sub_len-fits left 2 h, short) tt
  | inr fits ↦
      rw
        (
          sub_len-fits left 2 h,
          fits,
          Listed.copy_to_bytes_lem s n (ground arith),
          sub_len-fits (left - 2) n (ground arith),
        )
        (ground (arith, length-take n s), ground (arith, length-take n s, take-append-drop n s))
]

param_bytes :
    (p : OptionalParam) (b : List ℕ) (ps : List OptionalParam) (tail : List ℕ)
    → (All IsU8 b → b ≡ encode ps ++ tail)
    → All IsU8 (p.param_type ∷ length p.value ∷ (p.value ++ b))
    → p.param_type ∷ length p.value ∷ (p.value ++ b) ≡ encode (p ∷ ps) ++ tail
param_bytes p b ps tail et h =
    let e : u8 (length p.value) ≡ length p.value = omega arith in
    rw (e, append_assoc p.value (encode ps) tail, et (All-back IsU8 p.value b h.1.1))

-- What the loop returns: parameters whose bytes are the first `left` of the body, but for one odd
-- byte at the end at most.
abbrev pub AreParamsOf : List ℕ → ℕ → List OptionalParam → Type 0
AreParamsOf body left ps =
    (length (encode ps) ≤ left)
    × (left ≤ length (encode ps) + 1)
    × ((tail : List ℕ) × (All IsU8 body → body ≡ encode ps ++ tail))

pub listed-AreParamsOf :
    (fuel : ℕ) (body : List ℕ) (left : ℕ)
    → left ≤ fuel
    → left ≤ length body
    → Returns (AreParamsOf body left) (parse_params listed fuel body left)
unfolding parse_params
listed-AreParamsOf zero body left f k =
    rw (lt→ltb left 2 (omega arith)) (omega arith, omega arith, (body, λ b. refl))
listed-AreParamsOf (suc fuel) body left f k = elim (Bool-cases (ltb left 2)) [
  | inl done ↦ rw done (ground arith, ground arith, (body, λ b. refl))
  | inr more ↦ rw more (
      Returns-bind (IsParamOf body left) _ _ _ (listed-IsParamOf body left (ground arith) k)
        λ (p, b, l) (el, eb).
          Returns-bind (AreParamsOf b l) _ _ _
            (listed-AreParamsOf fuel b l (omega arith)
              (omega (arith, ap length eb, length-append p.value b)))
            λ ps (lo, lp, (tail, et)). (
              omega (arith, length-append p.value (encode ps)),
              omega (arith, length-append p.value (encode ps)),
              (tail, λ h. eb ∙ param_bytes p b ps tail et (subst (All IsU8) eb h)),
            ))
]
