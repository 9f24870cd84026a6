-- ===== src/Identity/KeyFile.antt =====
-- skill/src/identity.ts: the file with the agent's keys, and how every tool starts from it
-- (skill/src/tools/cli.ts and skill/src/tools/pinch-whoami.ts). JSON and Base64 come from outside the
-- repository: they are the parameter `KeyCodec`. The disk takes every write.
use pinch.Prelude.Act.{
  Error, Result, Result-cases, ok, throw, unreadable_file, malformed_file, unsupported_version,
  malformed_key,
}
use pinch.Prelude.{
  ℕ, String, ◌≡◌, refl, ap, subst, ◌∙◌, Bool, false, Option, none, some, inl, inr, List, [], ◌∷◌,
  eqb, if◌then◌else◌,
}
use pinch.Wire.{Bytes}

pub record Keypair : Type 0 where
  pub public_key : Bytes
  pub private_key : Bytes

-- The fields of the JSON object; `none` where one has a value of another kind, or is missing.
pub record KeypairFile : Type 0 where
  pub version : Option ℕ
  pub public_key : Option String
  pub private_key : Option String
  pub created_at : Option String

pub record KeyCodec : Type 0 where
  -- `JSON.parse(content)`, which throws on other texts, and `JSON.stringify(data, null, 2)`
  pub parse : String → Option KeypairFile
  pub stringify : KeypairFile → String
  -- `sodium.to_base64(bytes, ORIGINAL)`, and `from_base64`, which throws on other texts
  pub to_base64 : Bytes → String
  pub from_base64 : String → Option Bytes
  -- `new Date().toISOString()`
  pub iso : ℕ → String

module _ (kc : KeyCodec) where
  abbrev read_key : Option String → Result Bytes
  read_key none = throw malformed_key
  read_key (some text) = elim (kc.from_base64 text) [ none ↦ throw malformed_key | some b ↦ ok b ]

  abbrev with_public : Bytes → Result Bytes → Result Keypair
  with_public key (throw e) = throw e
  with_public key (ok secret) = ok (record { public_key = key; private_key = secret })

  abbrev read_keys : KeypairFile → Result Keypair
  read_keys f = elim (read_key f.public_key) [
    | throw e ↦ throw e
    | ok key ↦ with_public key (read_key f.private_key)
  ]

  abbrev is_supported : Option ℕ → Bool
  is_supported none = false
  is_supported (some v) = eqb v 1

  abbrev pub read_file : Option KeypairFile → Result Keypair
  read_file none = throw malformed_file
  read_file (some f) = if is_supported f.version then read_keys f else throw unsupported_version

  -- `loadKeypair`, on the content of the file
  unfoldable pub load_keypair : Option String → Result Keypair
  load_keypair none = throw unreadable_file
  load_keypair (some content) = read_file (kc.parse content)

  abbrev pub keypair_file : ℕ → Keypair → KeypairFile
  keypair_file now k = record {
    version = some 1;
    public_key = some (kc.to_base64 k.public_key);
    private_key = some (kc.to_base64 k.private_key);
    created_at = some (kc.iso now);
  }

  -- `saveKeypair`: what it writes
  unfoldable pub save_keypair : ℕ → Keypair → String
  save_keypair now k = kc.stringify (keypair_file now k)

  abbrev pub kept_or_new : ℕ → Keypair → Option String → Result Keypair → Option String × Keypair
  kept_or_new now fresh file (ok k) = (file, k)
  kept_or_new now fresh file (throw e) = (some (save_keypair now fresh), fresh)

  -- What a tool begins with: the keys of the file, or else `fresh` ones, which are saved. The file is
  -- given back with the keys.
  unfoldable pub load_or_generate : ℕ → Keypair → Option String → Option String × Keypair
  load_or_generate now fresh file = kept_or_new now fresh file (load_keypair file)

  -- Starts of tools one after the other, each with a time and the keys that it would generate.
  unfoldable pub starts : List (ℕ × Keypair) → Option String → Option String × List Keypair
  starts [] file = (file, [])
  starts ((now, fresh) ∷ later) file =
      let (file', k) = load_or_generate now fresh file in
      let (last, ks) = starts later file' in (last, k ∷ ks)

  abbrev pub AllSame : Keypair → List Keypair → Type 0
  AllSame k [] = Unit
  AllSame k (x ∷ xs) = (x ≡ k) × AllSame k xs

  load-found :
      (file : Option String) (k : Keypair) (calls : List (ℕ × Keypair))
      → load_keypair file ≡ ok k
      → ((starts calls file).0 ≡ file) × AllSame k (starts calls file).1
  unfolding starts load_or_generate
  load-found file k [] h = (refl, tt)
  load-found file k ((now, fresh) ∷ later) h =
      let (a, b) = load-found file k later h in rw (h) (a, (refl, b))

  module _
      (parsed : (now : ℕ) (k : Keypair)
        → kc.parse (kc.stringify (keypair_file now k)) ≡ some (keypair_file now k))
      (decoded : (b : Bytes) → kc.from_base64 (kc.to_base64 b) ≡ some b) where
    -- The keys that are saved are the keys that are loaded.
    load-save_keypair : (now : ℕ) (k : Keypair) → load_keypair (some (save_keypair now k)) ≡ ok k
    unfolding load_keypair save_keypair
    load-save_keypair now k = rw (parsed now k, decoded k.public_key, decoded k.private_key) refl

    once_loaded :
        (now : ℕ) (fresh : Keypair) (file : Option String)
        → load_keypair (load_or_generate now fresh file).0 ≡ ok (load_or_generate now fresh file).1
    unfolding load_or_generate
    once_loaded now fresh file = elim (Result-cases (load_keypair file)) [
      | inl (k, h) ↦ rw (h) h
      | inr (e, h) ↦ rw (h) (load-save_keypair now fresh)
    ]

    -- From the first start on the identity stays: whatever the file was, all later starts find the keys
    -- of the first one, and none writes the file again. Assumed is that JSON and Base64 are read
    -- back as written.
    pub identity_stays :
        (now : ℕ) (fresh : Keypair) (later : List (ℕ × Keypair)) (file : Option String)
        → ((starts ((now, fresh) ∷ later) file).0 ≡ (load_or_generate now fresh file).0)
          × AllSame (load_or_generate now fresh file).1 (starts ((now, fresh) ∷ later) file).1
    unfolding starts
    identity_stays now fresh later file =
        let (a, b) =
          load-found (load_or_generate now fresh file).0 (load_or_generate now fresh file).1 later
            (once_loaded now fresh file) in
        (a, (refl, b))

    -- A file that is there and does not load, for whatever reason, is lost: it is overwritten by the new
    -- keys of the first tool that starts, and all later starts have those. Assumed is that JSON and
    -- Base64 are read back as written.
    pub unloaded_key_is_lost :
        (now : ℕ) (fresh : Keypair) (later : List (ℕ × Keypair)) (content : String) (e : Error)
        → load_keypair (some content) ≡ throw e
        → ((starts ((now, fresh) ∷ later) (some content)).0 ≡ some (save_keypair now fresh))
          × AllSame fresh (starts ((now, fresh) ∷ later) (some content)).1
    unfolding load_or_generate
    unloaded_key_is_lost now fresh later content e h =
        let (a, b) = identity_stays now fresh later (some content) in
        let first : load_or_generate now fresh (some content)
            ≡ (some (save_keypair now fresh), fresh) =
          rw h refl in
        (
          a ∙ ap (λ p. p.0) first,
          subst (λ p. AllSame p.1 (starts ((now, fresh) ∷ later) (some content)).1) first b,
        )
