-- ===== src/Sandbox/SecretPath.antt =====
-- crates/localpilot-sandbox/src/secret_path.rs: paths that look like they hold secrets.
use unshackled.Prelude.{
  Bool, true, false, not, ◌&&◌, ◌||◌, Option, none, some, List, [], ◌∷◌, map, any, ◌==◌, ℕ,
  if◌then◌else◌,
}
use unshackled.Text.{Text, codes, text_eq, one_of, lower, starts_with, contains}
use unshackled.Text.FilePath.{file_name, name_extension}
pub mod Detection

abbrev pub or_empty : Option Text → Text
or_empty none = []
or_empty (some s) = s

unfoldable pub is_dotenv : Text → Bool
unfolding text_eq starts_with contains
is_dotenv name =
    text_eq name (codes ".env")
    || (starts_with (codes ".env") name
        && not (contains (codes "example") name)
        && not (contains (codes "sample") name))

abbrev pub secret_names : List Text
secret_names =
    codes "id_rsa"
    ∷ codes "id_ed25519"
    ∷ codes "id_ecdsa"
    ∷ codes "id_dsa"
    ∷ codes ".npmrc"
    ∷ codes ".pypirc"
    ∷ codes ".netrc"
    ∷ codes "credentials"
    ∷ codes ".git-credentials"
    ∷ codes ".htpasswd"
    ∷ codes "secrets.yaml"
    ∷ codes "secrets.yml"
    ∷ codes "secrets.json"
    ∷ codes "kubeconfig"
    ∷ []

abbrev pub secret_extensions : List Text
secret_extensions =
    codes "pem" ∷ codes "key" ∷ codes "p12" ∷ codes "pfx" ∷ codes "keystore" ∷ codes "jks" ∷ []

abbrev pub secret_dirs : List Text
secret_dirs =
    codes ".aws/"
    ∷ codes ".ssh/"
    ∷ codes ".gnupg/"
    ∷ codes ".kube/"
    ∷ codes ".docker/config.json"
    ∷ []

abbrev pub has_secret_extension : Option Text → Bool
has_secret_extension none = false
has_secret_extension (some ext) = one_of ext secret_extensions

-- `replace('\\', "/")` on one character.
unfoldable pub forward_slash : ℕ → ℕ
forward_slash c = if c == b'\\' then b'/' else c

abbrev pub lossy : Text → Text
lossy path = lower (map forward_slash path)

unfoldable pub is_secret_name : Text → Bool
unfolding is_dotenv name_extension one_of
is_secret_name name =
    if is_dotenv name
    then true
    else if one_of name secret_names
    then true
    else has_secret_extension (name_extension name)

unfoldable pub is_secret_like : Text → Bool
unfolding is_secret_name file_name contains
is_secret_like path =
    if is_secret_name (lower (or_empty (file_name path)))
    then true
    else any (λ d. contains d (lossy path)) secret_dirs
