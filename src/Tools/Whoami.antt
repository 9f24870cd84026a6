-- ===== src/Tools/Whoami.antt =====
-- skill/src/tools/pinch-whoami.ts and relay-url.ts: the agent's address, and its registration at the
-- relay up to the request.
use pinch.Prelude.Act.{Result, ok, throw, relay_url_required}
use Prim.Native.Char.{Char}
use mathlib.Core.List.{reverse-append, reverse-reverse}
use Prim.Native.String.{◌++◌ as text_append}
use pinch.Prelude.Bytes.{to_list, of_list, to_list-of_list}
use pinch.Prelude.{
  ℕ, String, ◌≡◌, refl, ap, ◌∙◌, Bool, true, false, Option, none, some, List, [], ◌∷◌, ◌++◌, ◌==◌,
  ◌or◌, reverse, if◌then◌else◌,
}
use pinch.Identity.{Encodings, generate_address, strip_prefix}
use pinch.Identity.Matching.{strip_prefix-append}
use pinch.Identity.KeyFile.{Keypair, KeyCodec, load_or_generate}
use pinch.Tools.Bootstrap.{Environment, relay_host_of}

abbrev put_in_place : List Char → List Char → Option (List Char) → List Char
put_in_place new s none = s
put_in_place new s (some rest) = new ++ rest

-- `s.replace(/^old/, new)`
abbrev replace_front : String → String → List Char → List Char
replace_front old new s = put_in_place (to_list new) s (strip_prefix (to_list old) s)

-- `s.replace(/old$/, "")`
abbrev drop_end : String → List Char → List Char
drop_end old s =
    reverse (put_in_place [] (reverse s) (strip_prefix (reverse (to_list old)) (reverse s)))

abbrev base_url : List Char → List Char
base_url s = drop_end "/ws" (replace_front "ws://" "http://" (replace_front "wss://" "https://" s))

-- `relayBaseUrl`
unfoldable pub relay_base_url : String → String
relay_base_url url = of_list (base_url (to_list url))

pub record Registration : Type 0 where
  pub url : String
  pub public_key : String

-- What is shown, and the request that is sent with `--register`.
pub record Whoami : Type 0 where
  pub address : String
  pub relay : String
  pub registration : Option Registration

abbrev includes : String → List String → Bool
includes x [] = false
includes x (a ∷ args) = let rest = includes x args in if a == x then true else rest

module _ (kc : KeyCodec) (enc : Encodings) (now : ℕ) (fresh : Keypair) (env : Environment) where
  abbrev registration_of : Bool → Keypair → Result (Option Registration)
  registration_of false k = ok none
  registration_of true k =
      if (env.relay_url or "") == ""
      then throw relay_url_required
      else ok (
          some (record {
            url = text_append (relay_base_url (env.relay_url or "")) "/agents/register";
            public_key = kc.to_base64 k.public_key;
          }))

  abbrev shown : String → Result (Option Registration) → Result Whoami
  shown address (throw e) = throw e
  shown address (ok r) =
      ok (record { address = address; relay = env.relay_url or ""; registration = r })

  abbrev with_address : Bool → Keypair → Result String → Result Whoami
  with_address doing k (throw e) = throw e
  with_address doing k (ok address) = shown address (registration_of doing k)

  -- `run` up to the answer of the relay: the key file, and what is shown
  unfoldable pub run_whoami : List String → Option String → Option String × Result Whoami
  run_whoami args file =
      let (file', k) = load_or_generate kc now fresh file in
      (
        file',
        with_address (includes "--register" args) k
            (generate_address enc k.public_key (relay_host_of env)),
      )

drop_end-append : (old : String) (s : List Char) → drop_end old (s ++ to_list old) ≡ s
drop_end-append old s =
    rw (reverse-append s (to_list old), strip_prefix-append (reverse (to_list old)) (reverse s))
      (reverse-reverse s)

replace_front-append :
    (old new : String) (s : List Char) → replace_front old new (to_list old ++ s) ≡ to_list new ++ s
replace_front-append old new s = rw (strip_prefix-append (to_list old) s) refl

-- The address of a relay's socket becomes the address of its pages: the scheme changes, the path /ws
-- goes, and the rest stays as it is, for the scheme wss and for ws.
pub relay_base_url_of :
    (rest : List Char)
    → (relay_base_url (of_list (to_list "wss://" ++ (rest ++ to_list "/ws")))
        ≡ of_list (to_list "https://" ++ rest))
      × (relay_base_url (of_list (to_list "ws://" ++ (rest ++ to_list "/ws")))
          ≡ of_list (to_list "http://" ++ rest))
unfolding relay_base_url strip_prefix
relay_base_url_of rest =
    let end = rest ++ to_list "/ws" in
    let secure : base_url (to_list "wss://" ++ end) ≡ to_list "https://" ++ rest =
      ap (λ s. drop_end "/ws" (replace_front "ws://" "http://" s))
        (replace_front-append "wss://" "https://" end)
      ∙ drop_end-append "/ws" (to_list "https://" ++ rest) in
    let plain : base_url (to_list "ws://" ++ end) ≡ to_list "http://" ++ rest =
      ap (drop_end "/ws") (replace_front-append "ws://" "http://" end)
      ∙ drop_end-append "/ws" (to_list "http://" ++ rest) in
    (
      ap (λ s. of_list (base_url s)) (to_list-of_list (to_list "wss://" ++ end))
          ∙ ap of_list secure,
      ap (λ s. of_list (base_url s)) (to_list-of_list (to_list "ws://" ++ end)) ∙ ap of_list plain,
    )
