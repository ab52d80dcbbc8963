-- ===== src/Control/Access/Signature.antt =====
-- The signatures of requests (backend/app/core/auth_validator.py).
use Prim.Native.String.{◌++◌}
use mathlib.Core.Option.{none-ne-some}
use python_flow_hub.Prelude.{
  ℕ, suc, ◌+◌, ◌-◌, ◌≤◌, String, ◌≡◌, ◌≢◌, ◌↔◌, refl, ap, ◌∙◌, eq_refl, Bool, true, false, not,
  ◌||◌, Option, none, some, ltb, ◌==◌, if◌then◌else◌, Result, ok, err, eq_iff, arith, Bool-cases,
  Option-cases, inl, inr,
}
use python_flow_hub.Value.{ℤ, pos, negsuc}
use python_flow_hub.Runtime.Errors.{Error, raised}

-- The libraries hashlib and hmac, and Python's own functions; `none` where they raise. Two texts
-- that are not both ASCII cannot be compared.
pub record Crypto (Bytes Key : Type 0) : Type 0 where
  pub fromhex : String → Option Key
  pub hmac_sha256 : Key → String → String
  pub md5 : Bytes → String
  pub int : String → Option ℤ
  pub lower : String → String
  pub is_ascii : String → Bool

pub data Verdict : Type 0 where
  accepted missing malformed too_old mismatch : Verdict

-- `abs(now_ms - ts_ms)`
abbrev pub distance : ℕ → ℤ → ℕ
distance now (pos ts) = (now - ts) + (ts - now)
distance now (negsuc n) = now + suc n

abbrev pub window_ms : ℕ
window_ms = 300000

abbrev pub or_blank : Option String → String
or_blank none = ""
or_blank (some s) = s

module _ {Bytes Key : Type 0} (crypto : Crypto Bytes Key) where
  unfoldable pub compute_signature :
      (secret_hex timestamp_ms path body_md5 : String) → Option String
  compute_signature secret_hex timestamp_ms path body_md5 = elim (crypto.fromhex secret_hex) [
    | none ↦ none
    | some key ↦
        some (crypto.hmac_sha256 key (timestamp_ms ++ ("\n" ++ (path ++ ("\n" ++ body_md5)))))
  ]

  -- `hmac.compare_digest(expected, token)`
  abbrev pub compare_digest : (expected token : String) → Result Error Verdict
  compare_digest expected token =
      if not (crypto.is_ascii token)
      then err (raised "TypeError")
      else if expected == token
      then ok accepted
      else ok mismatch

  unfoldable pub check_signature :
      (secret_hex path : String) → Bytes → (timestamp token : String) → Result Error Verdict
  unfolding compute_signature
  check_signature secret_hex path raw_body timestamp token =
      elim (compute_signature secret_hex timestamp path (crypto.md5 raw_body)) [
        | none ↦ err (raised "ValueError")
        | some expected ↦ compare_digest expected (crypto.lower token)
      ]

  -- `now_ms` is the clock.
  unfoldable pub validate_request :
      (now_ms : ℕ) (secret_hex path : String)
      → Bytes
      → (timestamp_header token_header : Option String) → Result Error Verdict
  unfolding check_signature
  validate_request now_ms secret_hex path raw_body timestamp_header token_header =
      if or_blank timestamp_header == "" || or_blank token_header == ""
      then ok missing
      else elim (crypto.int (or_blank timestamp_header)) [
        | none ↦ ok malformed
        | some ts_ms ↦
            if ltb window_ms (distance now_ms ts_ms)
            then ok too_old
            else check_signature secret_hex path raw_body (or_blank timestamp_header)
                (or_blank token_header)
      ]

  -- The token is the HMAC of the time, the path and the digest of the body, line by line, under the
  -- key that the secret spells.
  abbrev pub IsSigned : (secret_hex path : String) → Bytes → (timestamp token : String) → Type 0
  IsSigned secret_hex path raw_body timestamp token =
      ((key : Key) × (crypto.fromhex secret_hex ≡ some key)
        × (crypto.hmac_sha256 key (timestamp ++ ("\n" ++ (path ++ ("\n" ++ crypto.md5 raw_body))))
            ≡ crypto.lower token))
      × (crypto.is_ascii (crypto.lower token) ≡ true)

  abbrev pub IsTimely : ℕ → (timestamp token : String) → Type 0
  IsTimely now_ms timestamp token =
      (timestamp ≢ "")
      × (token ≢ "")
      × ((ts_ms : ℤ) × (crypto.int timestamp ≡ some ts_ms) × (distance now_ms ts_ms ≤ window_ms))

  -- Both headers are there, the request is of its time, and it is signed.
  abbrev pub IsGenuine :
      (now_ms : ℕ) (secret_hex path : String)
      → Bytes
      → (timestamp_header token_header : Option String) → Type 0
  IsGenuine now_ms secret_hex path raw_body timestamp_header token_header =
      (timestamp : String) × (token : String) × (timestamp_header ≡ some timestamp)
      × (token_header ≡ some token)
      × IsTimely now_ms timestamp token
      × IsSigned secret_hex path raw_body timestamp token

  ne-neq : (a b : String) → a ≢ b → (a == b) ≡ false
  ne-neq a b differ = elim (Bool-cases (a == b)) [
    | inl same ↦ absurd (differ ((eq_iff a b).0 same))
    | inr other ↦ other
  ]

  compare_digest_lem :
      (expected token : String)
      → compare_digest expected token ≡ ok accepted
      → (expected ≡ token) × (crypto.is_ascii token ≡ true)
  compare_digest_lem expected token h = elim (Bool-cases (crypto.is_ascii token)) [
    | inr foreign ↦ absurd (ground arith)
    | inl ascii ↦ elim (Bool-cases (expected == token)) [
      | inl same ↦ ((eq_iff expected token).0 same, ascii)
      | inr other ↦ absurd (ground arith)
    ]
  ]

  compute_signature-key :
      (secret_hex timestamp path body_md5 expected : String)
      → compute_signature secret_hex timestamp path body_md5 ≡ some expected
      → (key : Key) × (crypto.fromhex secret_hex ≡ some key)
        × (crypto.hmac_sha256 key (timestamp ++ ("\n" ++ (path ++ ("\n" ++ body_md5)))) ≡ expected)
  unfolding compute_signature
  compute_signature-key secret_hex timestamp path body_md5 expected h =
      elim (Option-cases (crypto.fromhex secret_hex)) [
        | inl no_key ↦ absurd (none-ne-some expected (rw (no_key, compute_signature) at h))
        | inr (key, spelt) ↦
            let answered = rw (spelt, compute_signature) at h in (key, spelt, ap or_blank answered)
      ]

  IsSigned-check :
      (secret_hex path : String) (raw_body : Bytes) (timestamp token : String)
      → check_signature secret_hex path raw_body timestamp token ≡ ok accepted
      → IsSigned secret_hex path raw_body timestamp token
  unfolding check_signature
  IsSigned-check secret_hex path raw_body timestamp token h =
      elim (Option-cases (compute_signature secret_hex timestamp path (crypto.md5 raw_body))) [
        | inl no_key ↦ absurd (ground (arith, (rw (no_key, check_signature) at h)))
        | inr (expected, there) ↦
            let (same, ascii) =
              compare_digest_lem expected (crypto.lower token) (rw (there, check_signature) at h) in
            let (key, spelt, e) =
              compute_signature-key secret_hex timestamp path (crypto.md5 raw_body) expected
                there in
            ((key, spelt, e ∙ same), ascii)
      ]

  check-IsSigned :
      (secret_hex path : String) (raw_body : Bytes) (timestamp token : String)
      → IsSigned secret_hex path raw_body timestamp token
      → check_signature secret_hex path raw_body timestamp token ≡ ok accepted
  unfolding check_signature compute_signature
  check-IsSigned secret_hex path raw_body timestamp token ((key, spelt, signed), ascii) =
      rw (spelt, signed, check_signature) (ground (arith, ascii, eq_refl (crypto.lower token)))

  blank_missing :
      (now_ms : ℕ) (secret_hex path : String) (raw_body : Bytes) (timestamp token : Option String)
      → (or_blank timestamp == "" || or_blank token == "") ≡ true
      → validate_request now_ms secret_hex path raw_body timestamp token ≡ ok missing
  unfolding validate_request
  blank_missing now_ms secret_hex path raw_body timestamp token blank = rw blank

  missing-not_accepted :
      {P : Type 0} (r : Result Error Verdict) → r ≡ ok missing → r ≡ ok accepted → P
  missing-not_accepted r e h = absurd (ground arith)

  both_there :
      (now_ms : ℕ) (secret_hex path : String) (raw_body : Bytes) (timestamp token : String)
      → validate_request now_ms secret_hex path raw_body (some timestamp) (some token) ≡ ok accepted
      → IsTimely now_ms timestamp token × IsSigned secret_hex path raw_body timestamp token
  unfolding validate_request
  both_there now_ms secret_hex path raw_body timestamp token h =
      elim (Bool-cases (timestamp == "" || token == "")) [
        | inl blank ↦ absurd (ground (arith, (rw blank at h)))
        | inr full ↦ elim (Option-cases (crypto.int timestamp)) [
          | inl unread ↦ absurd (ground (arith, (rw (full, unread) at h)))
          | inr (ts_ms, read) ↦ elim (Bool-cases (ltb window_ms (distance now_ms ts_ms))) [
            | inl late ↦ absurd (ground (arith, (rw (full, read, late) at h)))
            | inr near ↦ (
              (
                λ e. absurd (ground (arith, eq_iff timestamp "", e)),
                λ e. absurd (ground (arith, eq_iff token "", e)),
                (ts_ms, read, ground arith),
              ),
              IsSigned-check secret_hex path raw_body timestamp token (rw (full, read, near) at h),
            )
          ]
        ]
      ]

  genuine :
      (now_ms : ℕ) (secret_hex path : String) (raw_body : Bytes) (timestamp token : String)
      → IsTimely now_ms timestamp token
      → IsSigned secret_hex path raw_body timestamp token
      → validate_request now_ms secret_hex path raw_body (some timestamp) (some token) ≡ ok accepted
  unfolding validate_request
  genuine now_ms secret_hex path raw_body timestamp token (t, k, (ts_ms, read, near)) signed =
      let timed = ne-neq timestamp "" t in
      let told = ne-neq token "" k in
      let full : (timestamp == "" || token == "") ≡ false = ground arith in
      let late : ltb window_ms (distance now_ms ts_ms) ≡ false = ground arith in
      rw (full, read, late) (check-IsSigned secret_hex path raw_body timestamp token signed)

  -- A request is accepted exactly if both headers are there and not blank, the time is a number
  -- within five minutes of the clock, and the token, in lower case and in ASCII, is the HMAC of the
  -- time, the path and the digest of the body under the key that the secret spells.
  pub validate_request-accepted :
      (now_ms : ℕ) (secret_hex path : String) (raw_body : Bytes)
      (timestamp_header token_header : Option String)
      → (validate_request now_ms secret_hex path raw_body timestamp_header token_header
          ≡ ok accepted)
        ↔ IsGenuine now_ms secret_hex path raw_body timestamp_header token_header
  validate_request-accepted now_ms secret_hex path raw_body timestamp_header token_header = (
    λ h. elim (Option-cases timestamp_header) [
      | inl none_there ↦
          missing-not_accepted _
            (blank_missing now_ms secret_hex path raw_body timestamp_header token_header
              (rw none_there refl))
            h
      | inr (timestamp, et) ↦ elim (Option-cases token_header) [
        | inl none_there ↦
            missing-not_accepted _
              (blank_missing now_ms secret_hex path raw_body timestamp_header token_header
                (rw none_there (ground arith)))
              h
        | inr (token, ek) ↦
            let (timely, signed) =
              both_there now_ms secret_hex path raw_body timestamp token (rw (et, ek) at h) in
            (timestamp, token, et, ek, timely, signed)
      ]
    ],
    λ (timestamp, token, et, ek, timely, signed).
        rw (et, ek) (genuine now_ms secret_hex path raw_body timestamp token timely signed),
  )
