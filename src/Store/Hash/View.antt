-- ===== src/Store/Hash/View.antt =====
-- crates/gamestore-engine/src/store.rs: the replies of hget and hgetall in terms of the records.
use game_store.Prelude.{
  ℕ, Bool, true, false, not, Bool-cases, inl, inr, ◌==◌, Option, none, some, List, [], ◌∷◌, ◌++◌,
  ◌≡◌, refl, sym, ap, ◌∙◌, arith, length, drop, map,
}
use game_store.Bytes.{Bytes, starts_with, ◌==ᵇ◌}
use game_store.Bytes.Order.{eq_of_==ᵇ}
use game_store.Bytes.Prefix.{append-drop_of_starts_with, starts_with-append}
use game_store.Encoding.Keys.{subkey, subkey_prefix}
use game_store.Encoding.Meta.{Meta, type_hash}
use game_store.Engine.Error.{Result, ok, err, backend, corruption, wrong_type}
use game_store.Engine.Interface.{IsReliable}
use game_store.Engine.Records.{Records, lookup, with_prefix}
use game_store.Store.Exec.{continue}
use game_store.Store.Base.{Host, Store, typed}
use game_store.Store.Strings.{is_some}
use game_store.Store.Hash.{hexists, hget, hgetall, hget_loaded, hgetall_loaded, stripped}
use game_store.Store.View.{IsConsistent, records, meta_at}
use game_store.Store.Load.{loaded, live_meta, live_meta_stored, load_typed-loaded, loaded-Settles}

-- The records without the first `n` bytes of their keys.
abbrev pub suffixes : ℕ → Records → Records
suffixes n [] = []
suffixes n ((k, v) ∷ rs) = (drop n k, v) ∷ suffixes n rs

pub stripped-ok : (n : ℕ) (rs : Records) → stripped n (map ok rs) ≡ ok (suffixes n rs)
unfolding stripped
stripped-ok n [] = refl
stripped-ok n ((k, v) ∷ rs) = ground (arith, stripped-ok n rs)

-- The fields of a key at a version.
unfoldable pub fields_of : Bytes → ℕ → Records → Records
fields_of k version rs =
    suffixes (length (subkey_prefix k version)) (with_prefix (subkey_prefix k version) rs)

pub append_==ᵇ : (p x y : Bytes) → ((p ++ x) ==ᵇ (p ++ y)) ≡ (x ==ᵇ y)
unfolding ◌==ᵇ◌
append_==ᵇ [] x y = refl
append_==ᵇ (b ∷ p) x y = ground (arith, append_==ᵇ p x y)

starts_with_of_==ᵇ : (p raw f : Bytes) → (raw ==ᵇ (p ++ f)) ≡ true → starts_with p raw ≡ true
starts_with_of_==ᵇ p raw f e =
    ap (starts_with p) (eq_of_==ᵇ raw (p ++ f) e) ∙ starts_with-append p f

drop_==ᵇ :
    (p raw f : Bytes) → starts_with p raw ≡ true → (drop (length p) raw ==ᵇ f) ≡ (raw ==ᵇ (p ++ f))
drop_==ᵇ p raw f e =
    sym (append_==ᵇ p (drop (length p) raw) f)
    ∙ ap (λ r. r ==ᵇ (p ++ f)) (sym (append-drop_of_starts_with p raw e))

-- A suffix is found in a scan exactly where the whole key is found in the records.
pub lookup-suffixes :
    (p f : Bytes) (rs : Records)
    → lookup f (suffixes (length p) (with_prefix p rs)) ≡ lookup (p ++ f) rs
unfolding lookup with_prefix
lookup-suffixes p f [] = refl
lookup-suffixes p f ((raw, v) ∷ rs) =
    ground (arith, lookup-suffixes p f rs, starts_with_of_==ᵇ p raw f, drop_==ᵇ p raw f)

-- Looking a field up in a scan finds what a point read of its subkey finds.
pub lookup-fields_of :
    (k : Bytes) (version : ℕ) (f : Bytes) (rs : Records)
    → lookup f (fields_of k version rs) ≡ lookup (subkey k version f) rs
unfolding fields_of subkey
lookup-fields_of k version f rs = lookup-suffixes (subkey_prefix k version) f rs

-- The replies, from what a load found and the records.
abbrev pub field_in : Bytes → Bytes → Records → Result (Option Meta) → Result (Option Bytes)
field_in k f rs (ok none) = ok none
field_in k f rs (ok (some m)) = ok (lookup (subkey k m.version f) rs)
field_in k f rs (err e) = err e

abbrev pub fields_in : Bytes → Records → Result (Option Meta) → Result (List (Bytes × Bytes))
fields_in k rs (ok none) = ok []
fields_in k rs (ok (some m)) = ok (fields_of k m.version rs)
fields_in k rs (err e) = err e

-- The value of a field among all the fields, and whether there is one.
abbrev pub looked_up : Bytes → Result (List (Bytes × Bytes)) → Result (Option Bytes)
looked_up f (ok fields) = ok (lookup f fields)
looked_up f (err e) = err e

abbrev pub mentions : Bytes → Result (List (Bytes × Bytes)) → Result Bool
mentions f (ok fields) = ok (is_some (lookup f fields))
mentions f (err e) = err e

abbrev known : Result (Option Bytes) → Result Bool
known (ok o) = ok (is_some o)
known (err e) = err e

-- Whether a reply is the wrong-type error, and whether metadata is of another type than a Hash.
abbrev pub is_refused {ℓ} : {A : Type ℓ} → Result A → Bool
is_refused (ok a) = false
is_refused (err (backend message)) = false
is_refused (err (corruption message)) = false
is_refused (err wrong_type) = true

abbrev pub is_other : Option Meta → Bool
is_other none = false
is_other (some m) = not (m.type_id == type_hash)

-- A typed load that finds metadata finds the live metadata.
pub typed-some : (t : ℕ) (o : Option Meta) (m : Meta) → typed t o ≡ ok (some m) → o ≡ some m
unfolding typed
typed-some t none m e = cc
typed-some t (some n) m e = ground arith

module _ ⦃h : Host⦄ (laws : IsReliable h.engine) where
  read_field :
      (k f : Bytes) (rs : Records) (s : Store h) (r : Result (Option Meta))
      → ((m : Meta) → r ≡ ok (some m) → records laws s ≡ rs)
      → (continue r (hget_loaded k f) s).0 ≡ field_in k f rs r
  unfolding hget_loaded
  read_field k f rs s (ok none) e = refl
  read_field k f rs s (ok (some m)) e =
      laws.get_lem s.engine (subkey k m.version f)
      ∙ ap (λ t. ok (lookup (subkey k m.version f) t)) (e m refl)
  read_field k f rs s (err x) e = refl

  read_fields :
      (k : Bytes) (rs : Records) (s : Store h) (r : Result (Option Meta))
      → ((m : Meta) → r ≡ ok (some m) → records laws s ≡ rs)
      → (continue r (hgetall_loaded k) s).0 ≡ fields_in k rs r
  unfolding hgetall_loaded fields_of
  read_fields k rs s (ok none) e = refl
  read_fields k rs s (ok (some m)) e =
      let p = subkey_prefix k m.version in
      ap (stripped (length p)) (laws.scan_prefix_lem s.engine p)
      ∙ stripped-ok (length p) (with_prefix p (records laws s))
      ∙ ap (λ t. ok (suffixes (length p) (with_prefix p t))) (e m refl)
  read_fields k rs s (err x) e = refl

  module _ (k : Bytes) (s : Store h) (c : IsConsistent laws s) where
    unchanged :
        (m : Meta)
        → typed type_hash (meta_at laws k (loaded laws k s)) ≡ ok (some m)
        → records laws (loaded laws k s) ≡ records laws s
    unchanged m e =
        (live_meta_stored laws k s m
          (sym (loaded-Settles laws k s c).found ∙ typed-some type_hash _ m e)).1

    pub hget_reply :
        (f : Bytes)
        → (hget k f s).0 ≡ field_in k f (records laws s) (typed type_hash (live_meta laws k s))
    unfolding hget
    hget_reply f = rw (load_typed-loaded laws k s c type_hash) (
        read_field k f (records laws s) (loaded laws k s) _ unchanged
        ∙ ap (λ o. field_in k f (records laws s) (typed type_hash o))
            (loaded-Settles laws k s c).found)

    pub hgetall_reply :
        (hgetall k s).0 ≡ fields_in k (records laws s) (typed type_hash (live_meta laws k s))
    unfolding hgetall
    hgetall_reply = rw (load_typed-loaded laws k s c type_hash) (
        read_fields k (records laws s) (loaded laws k s) _ unchanged
        ∙ ap (λ o. fields_in k (records laws s) (typed type_hash o))
            (loaded-Settles laws k s c).found)

    -- On a consistent store, HGET of a field replies the value that stands at the field in the
    -- reply of HGETALL, and HEXISTS whether there is one; where HGETALL fails, both fail with its
    -- error, and it fails with the wrong-type error exactly where the live metadata of the key is
    -- of another type.
    pub hget-hgetall :
        (f : Bytes)
        → ((hget k f s).0 ≡ looked_up f (hgetall k s).0)
          × ((hexists k f s).0 ≡ mentions f (hgetall k s).0)
          × (is_refused (hgetall k s).0 ≡ is_other (live_meta laws k s))
    unfolding hexists
    hget-hgetall f =
        let r = typed type_hash (live_meta laws k s) in
        let found = hget_reply f ∙ one_of_all f r ∙ ap (looked_up f) (sym hgetall_reply) in
        (
          found,
          tested (hget k f s) ∙ ap known found ∙ known_of_all (hgetall k s).0,
          ap is_refused hgetall_reply ∙ refuses (live_meta laws k s),
        )
      where
        one_of_all :
            (f : Bytes) (r : Result (Option Meta))
            → field_in k f (records laws s) r ≡ looked_up f (fields_in k (records laws s) r)
        one_of_all f (ok none) = unfold lookup in refl
        one_of_all f (ok (some m)) = ap ok (sym (lookup-fields_of k m.version f (records laws s)))
        one_of_all f (err e) = refl

        tested :
            (r : Result (Option Bytes) × Store h)
            → (continue r.0 (λ o t. (ok (is_some o), t)) r.1).0 ≡ known r.0
        tested (ok o, t) = refl
        tested (err e, t) = refl

        known_of_all : (r : Result (List (Bytes × Bytes))) → known (looked_up f r) ≡ mentions f r
        known_of_all (ok fields) = refl
        known_of_all (err e) = refl

        refuses :
            (o : Option Meta)
            → is_refused (fields_in k (records laws s) (typed type_hash o)) ≡ is_other o
        refuses none = unfold typed in refl
        refuses (some m) = elim (Bool-cases (m.type_id == type_hash)) [
          | inl same ↦ unfold typed in rw same refl
          | inr other ↦ unfold typed in rw other refl
        ]
