-- ===== src/Domain/Codec.antt =====
-- mastomini_rs/src/codec.rs: the value of a record, behind its version and its kind. The crate
-- postcard is a parameter: its writer and its reader, which returns the value and the bytes behind it.
use mastomini.Prelude.{
  not, ℕ, ◌≡◌, refl, Option, some, [], ◌∷◌, ◌==◌, if◌then◌else◌, Result, ok, err, ◌>>=◌, ok_or,
  Option-cases, inl, inr, Bool-cases,
}
use mastomini.Prelude.Bytes.{Bytes}
use mastomini.Store.Base.{StoreError, corrupt, text, numbered}
use mastomini.Store.Key.{is_empty}

abbrev pub version : ℕ
version = 1

pub data Kind : Type 0 where
  schema server account app token status boost reaction follow block mute account_mod report
        collection terms user_key token_key dm code revision poll follow_request list filter social
        account_note announcement local_token scheduler scheduled led_phrase account_with_key
        notification remote_settings remote_account remote_item device search_auth :
      Kind

-- `kind as u8`
unfoldable pub number : Kind → ℕ
number Kind.schema = 1
number Kind.server = 2
number Kind.account = 3
number Kind.app = 4
number Kind.token = 5
number Kind.status = 6
number Kind.boost = 7
number Kind.reaction = 8
number Kind.follow = 9
number Kind.block = 10
number Kind.mute = 11
number Kind.account_mod = 12
number Kind.report = 13
number Kind.collection = 14
number Kind.terms = 15
number Kind.user_key = 16
number Kind.token_key = 17
number Kind.dm = 18
number Kind.code = 19
number Kind.revision = 20
number Kind.poll = 21
number Kind.follow_request = 22
number Kind.list = 23
number Kind.filter = 24
number Kind.social = 25
number Kind.account_note = 26
number Kind.announcement = 27
number Kind.local_token = 28
number Kind.scheduler = 29
number Kind.scheduled = 30
number Kind.led_phrase = 31
number Kind.account_with_key = 32
number Kind.notification = 33
number Kind.remote_settings = 34
number Kind.remote_account = 35
number Kind.remote_item = 36
number Kind.device = 37
number Kind.search_auth = 38

module _ {T : Type 0} (to_allocvec : T → Option Bytes) where
  unfoldable pub encode : Kind → T → Result StoreError Bytes
  encode kind value =
      ok_or (to_allocvec value) (corrupt (numbered "encode" (number kind ∷ []))) >>= λ payload.
      ok (version ∷ number kind ∷ payload)

module _ {T : Type 0} (take_from_bytes : Bytes → Option (T × Bytes)) where
  -- The arm of `decode` for a record of the kind.
  unfoldable pub decode_payload : Kind → Bytes → Result StoreError T
  decode_payload kind payload =
      ok_or (take_from_bytes payload) (corrupt (numbered "decode" (number kind ∷ []))) >>= λ taken.
      if is_empty taken.1
      then ok taken.0
      else err (corrupt (numbered "trailing bytes" (number kind ∷ [])))

  unfoldable pub decode : Kind → Bytes → Result StoreError T
  decode kind [] = err (corrupt (text "empty record"))
  decode kind (v ∷ []) = err (corrupt (numbered "unsupported record version" (v ∷ [])))
  decode kind (v ∷ k ∷ payload) =
      if not (v == version)
      then err (corrupt (numbered "unsupported record version" (v ∷ [])))
      else if not (k == number kind)
      then err (corrupt (numbered "expected and found kind" (number kind ∷ k ∷ [])))
      else decode_payload kind payload

module _ {T : Type 0} (to_allocvec : T → Option Bytes)
    (take_from_bytes : Bytes → Option (T × Bytes))
    (taken_back : (value : T) (bytes : Bytes)
      → to_allocvec value ≡ some bytes
      → take_from_bytes bytes ≡ some (value, [])) where
  -- If the reader of postcard takes back what its writer writes, with nothing behind it, and a
  -- value was encoded under a kind, then decoding under a kind gives the value if the two kinds
  -- have the same number, and otherwise the error that names both.
  pub decode-encode :
      (kind as_kind : Kind) (value : T) (bytes : Bytes)
      → encode to_allocvec kind value ≡ ok bytes
      → decode take_from_bytes as_kind bytes ≡ (
          if number kind == number as_kind
          then ok value
          else err
              (corrupt (numbered "expected and found kind" (number as_kind ∷ number kind ∷ []))))
  unfolding encode decode decode_payload
  decode-encode kind as_kind value bytes e = elim (Option-cases (to_allocvec value)) [
    | inl failed ↦ absurd (cc (rw failed at e))
    | inr (payload, written) ↦
        let spelled : version ∷ number kind ∷ payload ≡ bytes = cc (rw written at e) in
        rw (← spelled) (elim (Bool-cases (number kind == number as_kind)) [
          | inl same ↦ rw (same, taken_back value payload written) refl
          | inr other ↦ rw other refl
        ])
  ]
