-- ===== src/Mobile/Storage/RoundTrip.antt =====
-- storage.ts: what is loaded after it was saved.
use text.Mathlib.Text.{◌==◌ as str_eq}
use msclaude_connector.Prelude.{
  ℕ, ◌≤◌, String, Bool, true, false, ◌||◌, not, ◌≡◌, refl, sym, ap, ◌∙◌, [], ◌∷◌, some, arith, Text,
  is_empty, if◌then◌else◌, if_cases, inl, inr, Bool-cases,
}
use msclaude_connector.Prelude.Decimal.{decimal}
use msclaude_connector.Value.{
  Value, Fields, undefined, null, bool, num, str, arr, obj, end, field, get,
}
use msclaude_connector.Client.{HarnessIdentity}
use msclaude_connector.Mobile.Storage.{
  KeyStore, Codec, identity_fields, identity_key, last_seq_key, load_identity, save_identity,
  load_last_seq, save_last_seq, checked_identity, read_identity, parse_identity, parse_last_seq,
  finite_or_zero, finite_or_zero,
}
use msclaude_connector.Mobile.Storage.Laws.{
  IsKeyStore, IsCodec, cleaned, cleaned_items, cleaned_fields, max_safe_integer,
}

-- A property that JSON keeps: one that is absent, or whose value comes back as it is.
unfoldable pub kept_by_json : Value → Value
unfolding cleaned cleaned_items cleaned_fields
kept_by_json undefined = undefined
kept_by_json v = cleaned v

abbrev or_next : Value → Value → Value
or_next undefined w = w
or_next v w = cleaned v

get-cleaned_fields :
    (k j : String) (v : Value) (fs : Fields)
    → get k (cleaned_fields (field j v fs))
      ≡ (if str_eq j k then or_next v (get k (cleaned_fields fs)) else get k (cleaned_fields fs))
unfolding cleaned_fields
get-cleaned_fields k j undefined fs =
    if_cases (λ v. get k (cleaned_fields fs) ≡ v) (str_eq j k) _ _ (λ _. refl) (λ _. refl)
get-cleaned_fields k j null fs = refl
get-cleaned_fields k j (bool b) fs = refl
get-cleaned_fields k j (num n) fs = refl
get-cleaned_fields k j (str s) fs = refl
get-cleaned_fields k j (arr vs) fs = refl
get-cleaned_fields k j (obj gs) fs = refl

or_next-undefined : (v : Value) → or_next v undefined ≡ kept_by_json v
unfolding kept_by_json
or_next-undefined undefined = refl
or_next-undefined null = refl
or_next-undefined (bool b) = refl
or_next-undefined (num n) = refl
or_next-undefined (str s) = refl
or_next-undefined (arr vs) = refl
or_next-undefined (obj gs) = refl

has_key : String → Fields → Bool
has_key k end = false
has_key k (field j v fs) = str_eq j k || has_key k fs

is_once : String → Fields → Bool
unfolding has_key
is_once k end = true
is_once k (field j v fs) = if str_eq j k then not (has_key k fs) else is_once k fs

get-absent :
    (k : String) (fs : Fields) → has_key k fs ≡ false → get k (cleaned_fields fs) ≡ undefined
unfolding has_key cleaned_fields
get-absent k end h = refl
get-absent k (field j v fs) h = get-cleaned_fields k j v fs ∙ ground (arith, h, get-absent k fs)

-- A property that an object has once comes back as JSON keeps it.
get-kept :
    (k : String) (fs : Fields)
    → is_once k fs ≡ true
    → get k (cleaned_fields fs) ≡ kept_by_json (get k fs)
unfolding is_once cleaned_fields kept_by_json
get-kept k end h = refl
get-kept k (field j v fs) h = elim (Bool-cases (str_eq j k)) [
  | inl same ↦
      get-cleaned_fields k j v fs ∙ ground (arith, same, h, get-absent k fs, or_next-undefined v)
  | inr other ↦ get-cleaned_fields k j v fs ∙ ground (arith, other, h, get-kept k fs)
]

-- An identity that JSON keeps: its credential is a text, and its other fields come back as they are.
pub record IsStorable (i : HarnessIdentity) : Type 0 where
  pub secret : Text
  pub is_text : i.credential ≡ str secret
  pub device_id : kept_by_json i.device_id ≡ i.device_id
  pub name : kept_by_json i.name ≡ i.name
  pub spki : kept_by_json i.spki ≡ i.spki

checked-alike :
    (d c n k : Value) (secret url : Text)
    → c ≡ str secret
    → checked_identity c (str url) (
        field "deviceId" d
          (field "credential" c (field "name" n (field "url" (str url) (field "spki" k end)))))
      ≡ some (record { device_id = d; credential = c; url = url; spki = k; name = n })
unfolding checked_identity
checked-alike d c n k secret url e = rw e

checked_identity-fields :
    (fs : Fields) (i : HarnessIdentity) (secret : Text)
    → i.credential ≡ str secret
    → get "deviceId" fs ≡ i.device_id
    → get "credential" fs ≡ i.credential
    → get "name" fs ≡ i.name
    → get "url" fs ≡ str i.url
    → get "spki" fs ≡ i.spki
    → checked_identity (get "credential" fs) (get "url" fs) fs ≡ some i
unfolding checked_identity
checked_identity-fields fs i secret e d c n u k = ground (arith, e, d, c, n, u, k)

read-cleaned :
    (i : HarnessIdentity)
    → IsStorable i
    → read_identity (obj (cleaned_fields (identity_fields i))) ≡ some i
unfolding is_once has_key kept_by_json cleaned
read-cleaned i h =
    let fs = identity_fields i in
    checked_identity-fields (cleaned_fields fs) i h.secret h.is_text
      (get-kept "deviceId" fs refl ∙ h.device_id)
      (get-kept "credential" fs refl ∙ (ap kept_by_json h.is_text ∙ sym h.is_text))
      (get-kept "name" fs refl ∙ h.name) (get-kept "url" fs refl) (get-kept "spki" fs refl ∙ h.spki)

is_empty-yes : (s : Text) → is_empty s ≡ true → s ≡ []
is_empty-yes [] h = refl
is_empty-yes (x ∷ s) h = cc

module _ (codec : Codec) where
  parse_identity-stringify :
      (i : HarnessIdentity)
      → IsCodec codec (identity_fields i)
      → IsStorable i
      → parse_identity codec (codec.stringify (obj (identity_fields i))) ≡ some i
  parse_identity-stringify i lawful h =
      let text = codec.stringify (obj (identity_fields i)) in
      ground
        (arith, lawful.parse-stringify, read-cleaned i h, lawful.parse-empty, is_empty-yes text)

  finite_or_zero-decimal :
      (fs : Fields) (n : ℕ)
      → IsCodec codec fs
      → n ≤ max_safe_integer
      → finite_or_zero (parse_last_seq codec (decimal n)) ≡ n
  finite_or_zero-decimal fs n lawful small =
      if_cases (λ v. finite_or_zero v ≡ n) (is_empty (decimal n)) _ _
        (λ e.
          ground
            (arith, lawful.number-decimal n small, lawful.number-empty, is_empty-yes (decimal n) e))
        (λ _. ap finite_or_zero (lawful.number-decimal n small))

-- An identity that was saved is the one that is loaded, where JSON keeps it.
pub load_identity-save_identity :
    {S : Type 0} (store : KeyStore S) (codec : Codec) (i : HarnessIdentity) (s t : S)
    → IsKeyStore store
    → IsCodec codec (identity_fields i)
    → IsStorable i
    → save_identity store codec i s ≡ some t
    → load_identity store codec t ≡ some i
unfolding load_identity save_identity
load_identity-save_identity store codec i s t keeps lawful h saved =
    rw (keeps.get-set identity_key _ s t saved, load_identity)
      (parse_identity-stringify codec i lawful h)

-- A number that was saved is the one that is loaded, up to the largest safe integer.
pub load_last_seq-save_last_seq :
    {S : Type 0} (store : KeyStore S) (codec : Codec) (fs : Fields) (n : ℕ) (s t : S)
    → IsKeyStore store
    → IsCodec codec fs
    → n ≤ max_safe_integer
    → save_last_seq store n s ≡ some t
    → load_last_seq store codec t ≡ n
unfolding load_last_seq save_last_seq
load_last_seq-save_last_seq store codec fs n s t keeps lawful small saved =
    rw (keeps.get-set last_seq_key _ s t saved, load_last_seq)
      (finite_or_zero-decimal codec fs n lawful small)
