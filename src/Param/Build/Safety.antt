-- ===== src/Param/Build/Safety.antt =====
-- src/param: no parser aborts or runs on, and a parameter counts no more bytes than its buffer has.
use sctp.Base.{
  ℕ, zero, suc, ◌+◌, ◌*◌, ◌-◌, ◌/◌, ◌%◌, ◌^◌, ◌≤◌, ◌≡◌, refl, ap, List, [], ◌∷◌, length, leb, ltb,
  ◌==◌, if◌then◌else◌, ◌||◌, not, true, arith, inl, inr, Bool-cases,
}
use sctp.Error.{Result, ok, err, ◌>>=◌}
use sctp.Error.Outcomes.{Safe, guard-Safe, >>=-Safe, reading-Safe}
use sctp.Bytes.{Buf, IsLawful}
use sctp.Bytes.Reads.{read-Safe, slice-Safe}
use sctp.Param.Kind.{
  ParamType, from_u16, chunk_list, forward_tsn_supp, supported_ext, random, req_hmac_algo,
  state_cookie, heartbeat_info, out_ssn_reset_req, reconfig_resp,
}
use sctp.Param.Values.{
  Param, ParamHeader, unmarshal_header, HmacAlgorithm, hmac_from_u16, value_length,
}
use sctp.Param.Build.{
  unmarshal_value, unmarshal_forward_tsn_supported, unmarshal_random, unmarshal_state_cookie,
  unmarshal_heartbeat_info, unmarshal_unknown, read_types, unmarshal_supported_extensions,
  unmarshal_chunk_list, read_algorithms, unmarshal_requested_hmac_algorithm, read_identifiers,
  unmarshal_outgoing_reset_request, unmarshal_reconfig_response, dispatch, build_param,
  is_chunk_list, is_supported,
}

abbrev pub Fits : List ℕ → Param → Type 0
Fits raw p = 4 + value_length p ≤ length raw

module _ (buf : Buf) (law : IsLawful buf) (raw : List ℕ) where
  HeaderFits : ParamHeader → Type 0
  HeaderFits h = 4 + h.value_length ≤ length raw

  unmarshal_header-Safe : Safe HeaderFits (unmarshal_header buf raw)
  unfolding unmarshal_header HeaderFits
  unmarshal_header-Safe = guard-Safe HeaderFits _ _ _ (λ (long : leb 4 (length raw) ≡ true).
      read-Safe HeaderFits 2 (2 ^ 16) _ _ law.u16 2 raw _ (ground arith) (λ typ r1 l1.
        read-Safe HeaderFits 2 (2 ^ 16) _ _ law.u16 0 r1 _ l1 (λ len r2 l2.
          guard-Safe HeaderFits _ _ _
            (λ (g : not (ltb len 4 || ltb (length raw) len) ≡ true). ground arith))))

  ValueFits : ParamType × List ℕ → Type 0
  ValueFits v = 4 + length v.1 ≤ length raw

  unmarshal_value-Safe : Safe ValueFits (unmarshal_value buf raw)
  unfolding unmarshal_value ValueFits HeaderFits
  unmarshal_value-Safe =
      >>=-Safe ValueFits HeaderFits (unmarshal_header buf raw) _ unmarshal_header-Safe (λ h e fits.
        slice-Safe ValueFits 4 (4 + h.value_length) raw _ (omega arith) fits
          (λ value len. omega arith))

  -- A parser that keeps the value as it is.
  keep_value-Safe :
      (f : ParamType × List ℕ → Result Param)
      → ((v : ParamType × List ℕ) → 4 + length v.1 ≤ length raw → Safe (Fits raw) (f v))
      → Safe (Fits raw) (unmarshal_value buf raw >>= f)
  unfolding ValueFits
  keep_value-Safe f go =
      >>=-Safe (Fits raw) ValueFits (unmarshal_value buf raw) f unmarshal_value-Safe
        (λ v e fits. go v fits)

read_types-Safe :
    (buf : Buf)
    → IsLawful buf
    → (fuel : ℕ) (raw : List ℕ) → length raw ≤ fuel
    → Safe (λ types. length types ≡ length raw) (read_types buf fuel raw)
unfolding read_types
read_types-Safe buf law fuel [] h = refl
read_types-Safe buf law zero (b ∷ raw) h = absurd (omega arith)
read_types-Safe buf law (suc fuel) (b ∷ raw) h =
    let (n, e) = law.u8.get_enough (b ∷ raw) (omega arith) in
    reading-Safe Q _ _ _ e (
      >>=-Safe Q (λ (types : List ℕ). length types ≡ length raw) (read_types buf fuel raw) _
        (read_types-Safe buf law fuel raw (omega arith)) (λ types e2 q. ap suc q))
  where
    Q : List ℕ → Type 0
    Q types = length types ≡ suc (length raw)

read_algorithms-Safe :
    (buf : Buf)
    → IsLawful buf
    → (n : ℕ) (raw : List ℕ) → 2 * n ≤ length raw
    → Safe (λ algorithms. length algorithms ≡ n) (read_algorithms buf n raw)
unfolding read_algorithms
read_algorithms-Safe buf law zero raw h = refl
read_algorithms-Safe buf law (suc n) raw h =
    read-Safe Q 2 (2 ^ 16) _ _ law.u16 (2 * n) raw _ (omega arith) (λ v r1 l1.
      guard-Safe Q _ _ _ (λ (g : is_supported (hmac_from_u16 v) ≡ true).
        >>=-Safe Q (λ (algorithms : List HmacAlgorithm). length algorithms ≡ n)
          (read_algorithms buf n r1) _ (read_algorithms-Safe buf law n r1 l1)
          (λ algorithms e q. ap suc q)))
  where
    Q : List HmacAlgorithm → Type 0
    Q algorithms = length algorithms ≡ suc n

read_identifiers-Safe :
    (buf : Buf)
    → IsLawful buf
    → (n : ℕ) (raw : List ℕ) → 2 * n ≤ length raw
    → Safe (λ sids. length sids ≡ n) (read_identifiers buf n raw)
unfolding read_identifiers
read_identifiers-Safe buf law zero raw h = refl
read_identifiers-Safe buf law (suc n) raw h =
    read-Safe Q 2 (2 ^ 16) _ _ law.u16 (2 * n) raw _ (omega arith) (λ v r1 l1.
      >>=-Safe Q (λ (sids : List ℕ). length sids ≡ n) (read_identifiers buf n r1) _
        (read_identifiers-Safe buf law n r1 l1) (λ sids e q. ap suc q))
  where
    Q : List ℕ → Type 0
    Q sids = length sids ≡ suc n

module _ (buf : Buf) (law : IsLawful buf) (raw : List ℕ) where
  -- A parser that reads the header first.
  header-Safe :
      (f : ParamHeader → Result Param)
      → ((h : ParamHeader) → 4 + h.value_length ≤ length raw → Safe (Fits raw) (f h))
      → Safe (Fits raw) (unmarshal_header buf raw >>= f)
  unfolding HeaderFits
  header-Safe f go =
      >>=-Safe (Fits raw) (HeaderFits buf law raw) (unmarshal_header buf raw) f
        (unmarshal_header-Safe buf law raw) (λ h e fits. go h fits)

  types-Safe :
      (f : List ℕ → Result Param) (value : List ℕ)
      → ((types : List ℕ) → length types ≡ length value → Safe (Fits raw) (f types))
      → Safe (Fits raw) (read_types buf (length value) value >>= f)
  types-Safe f value go =
      >>=-Safe (Fits raw) (λ (types : List ℕ). length types ≡ length value)
        (read_types buf (length value) value) f
        (read_types-Safe buf law (length value) value (omega arith)) (λ types e q. go types q)

  hmac-Safe : Safe (Fits raw) (unmarshal_requested_hmac_algorithm buf raw)
  unfolding unmarshal_requested_hmac_algorithm value_length
  hmac-Safe = header-Safe _ (λ h fits.
      slice-Safe (Fits raw) 4 (4 + h.value_length) raw _ (omega arith) fits (λ reader len.
        >>=-Safe (Fits raw)
          (λ (algorithms : List HmacAlgorithm). length algorithms ≡ h.value_length / 2)
          (read_algorithms buf (h.value_length / 2) reader) _
          (read_algorithms-Safe buf law (h.value_length / 2) reader (omega arith))
          (λ algorithms e q. omega arith)))

  reset-Safe : Safe (Fits raw) (unmarshal_outgoing_reset_request buf raw)
  unfolding unmarshal_outgoing_reset_request value_length
  reset-Safe = header-Safe _ (λ h fits.
      guard-Safe (Fits raw) _ _ _ (λ (l : leb 12 h.value_length ≡ true).
        slice-Safe (Fits raw) 4 (4 + h.value_length) raw _ (omega arith) fits (λ reader len.
          read-Safe (Fits raw) 4 (2 ^ 32) _ _ law.u32 (h.value_length - 4) reader _ (ground arith)
            (λ a r1 l1.
              read-Safe (Fits raw) 4 (2 ^ 32) _ _ law.u32 (h.value_length - 8) r1 _ (ground arith)
                (λ b r2 l2.
                  read-Safe (Fits raw) 4 (2 ^ 32) _ _ law.u32 (h.value_length - 12) r2 _
                    (ground arith)
                    (λ c r3 l3.
                      >>=-Safe (Fits raw)
                        (λ (sids : List ℕ). length sids ≡ (h.value_length - 12) / 2)
                        (read_identifiers buf ((h.value_length - 12) / 2) r3) _
                        (read_identifiers-Safe buf law ((h.value_length - 12) / 2) r3 (omega arith))
                        (λ sids e q. ground arith)))))))

  response-Safe : Safe (Fits raw) (unmarshal_reconfig_response buf raw)
  unfolding unmarshal_reconfig_response value_length
  response-Safe = header-Safe _ (λ h fits.
      guard-Safe (Fits raw) _ _ _ (λ (l : leb 8 h.value_length ≡ true).
        slice-Safe (Fits raw) 4 (4 + h.value_length) raw _ (omega arith) fits (λ reader len.
          read-Safe (Fits raw) 4 (2 ^ 32) _ _ law.u32 4 reader _ (ground arith) (λ a r1 l1.
            read-Safe (Fits raw) 4 (2 ^ 32) _ _ law.u32 0 r1 _ l1 (λ b r2 l2. ground arith)))))

  unknown-Safe :
      (raw_type : ℕ)
      → Safe (Fits raw) (
          if raw_type / 2 ^ 15 % 2 == 0
          then err (sctp.Error.err_param_type_unhandled raw_type)
          else unmarshal_unknown buf raw)
  unfolding unmarshal_unknown value_length
  unknown-Safe raw_type = elim (Bool-cases (raw_type / 2 ^ 15 % 2 == 0)) [
    | inl b ↦ rw b tt
    | inr b ↦ rw b (keep_value-Safe buf law raw _ (λ v fits. fits))
  ]

  dispatch-Safe : (typ : ParamType) (raw_type : ℕ) → Safe (Fits raw) (dispatch buf typ raw_type raw)
  unfolding dispatch unmarshal_forward_tsn_supported unmarshal_random unmarshal_state_cookie
      unmarshal_heartbeat_info unmarshal_supported_extensions unmarshal_chunk_list value_length
  dispatch-Safe forward_tsn_supp raw_type = header-Safe _ (λ h fits. omega arith)
  dispatch-Safe supported_ext raw_type =
      keep_value-Safe buf law raw _ (λ v fits. types-Safe _ v.1 (λ types q. omega arith))
  dispatch-Safe random raw_type = keep_value-Safe buf law raw _ (λ v fits. fits)
  dispatch-Safe req_hmac_algo raw_type = hmac-Safe
  dispatch-Safe chunk_list raw_type = header-Safe _ (λ h fits.
      guard-Safe (Fits raw) _ _ _ (λ (g : is_chunk_list h.typ ≡ true).
        slice-Safe (Fits raw) 4 (4 + h.value_length) raw _ (omega arith) fits
          (λ value len. types-Safe _ value (λ types q. omega arith))))
  dispatch-Safe state_cookie raw_type = keep_value-Safe buf law raw _ (λ v fits. fits)
  dispatch-Safe heartbeat_info raw_type = keep_value-Safe buf law raw _ (λ v fits. fits)
  dispatch-Safe out_ssn_reset_req raw_type = reset-Safe
  dispatch-Safe reconfig_resp raw_type = response-Safe
  dispatch-Safe _ raw_type = unknown-Safe raw_type

  -- A parameter that is built from any bytes never aborts the program, its loops end, and the
  -- length that the parameter reports fits the buffer.
  pub build_param-Safe : Safe (Fits raw) (build_param buf raw)
  unfolding build_param
  build_param-Safe = guard-Safe (Fits raw) _ _ _ (λ (long : leb 4 (length raw) ≡ true).
      slice-Safe (Fits raw) 0 2 raw _ (omega arith) (ground arith) (λ reader len.
        read-Safe (Fits raw) 2 (2 ^ 16) _ _ law.u16 0 reader _ (omega arith)
          (λ raw_type r1 l1. dispatch-Safe (from_u16 raw_type) raw_type)))
