-- ===== src/Runtime/Removal.antt =====
-- The removals of runtime_provisioners.rs.
use grafhome_ca.Base.{◌>>=◌}
use grafhome_ca.Runtime.Live.{live_provisioners, with_provisioners}
use grafhome_ca.Keys.{get_str}
use grafhome_ca.External.{External}
use grafhome_ca.Base.{
  Bool, List, Option, Result, Text, [], ends_with, eq_text, false, if◌then◌else◌, none, some,
  starts_with, text, ◌&&◌, ◌>>=◌, ◌||◌, ◌∷◌, ok,
}
use grafhome_ca.Names.{parse_x509_provisioner_name}

-- The tests that the removals make on a name and a type.
abbrev pub Matches : Type 0
Matches = Option Text → Option Text → Bool

abbrev pub is_some_and : Option Text → (Text → Bool) → Bool
is_some_and none test = false
is_some_and (some t) test = test t

-- `== Some(text)`
abbrev pub is_text : Text → Option Text → Bool
is_text t o = is_some_and o (λ s. eq_text s t)

unfoldable pub matches_exact : Text → Matches
matches_exact name item_name item_type = is_text name item_name

unfoldable pub matches_user_prefix : Text → Matches
matches_user_prefix prefix item_name item_type = is_some_and item_name (starts_with prefix)

abbrev names_host : Text → Option (Text × Text) → Bool
names_host host none = false
names_host host (some (x509_host, certificate)) = eq_text x509_host host

unfoldable pub matches_host : Text → Text → Text → Matches
matches_host host host_name user_host_suffix item_name item_type =
    is_text host_name item_name
    || is_some_and item_name (λ name.
      starts_with (text "grafhome-user-") name && ends_with user_host_suffix name
      || names_host host (parse_x509_provisioner_name name))
    || is_text (text "SSHPOP") item_type

-- `if let Some(name) = name { removed.push(name) }`
abbrev pub push : Option Text → List Text → List Text
push none names = names
push (some name) names = name ∷ names

module _ (x : External) where
  open x use {Value}

  -- `retain`, with the names that it drops.
  unfoldable pub retain : Matches → List Value → List Value × List Text
  retain matches [] = ([], [])
  retain matches (item ∷ items) =
      let (kept, removed) = retain matches items in
      if matches (get_str x item (text "name")) (get_str x item (text "type"))
      then (kept, push (get_str x item (text "name")) removed)
      else (item ∷ kept, removed)

  unfoldable pub remove_matching : Text → Value → Matches → Result (Value × List Text)
  remove_matching path config matches = do
    items ← live_provisioners x path config
    ok (with_provisioners x config (retain matches items).0, (retain matches items).1)

  unfoldable pub remove_exact : Text → Value → Text → Result (Value × List Text)
  remove_exact path config name = remove_matching path config (matches_exact name)

  unfoldable pub remove_user : Text → Value → Text → Result (Value × List Text)
  remove_user path config prefix = remove_matching path config (matches_user_prefix prefix)

  unfoldable pub remove_host : Text → Value → Text → Text → Text → Result (Value × List Text)
  remove_host path config host host_name user_host_suffix =
      remove_matching path config (matches_host host host_name user_host_suffix)
