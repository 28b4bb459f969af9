-- ===== src/Tunnel/Tests.antt =====
-- An environment with a stray secret.
use gpthands.Prelude.{
  replace_from, String, true, false, some, [], ◌∷◌, ◌≡◌, refl, ok, string_discrete, is_empty, strip,
  has_infix, has_prefix, upper, elem, All,
}
use gpthands.Credentials.{Platform, credential_name, linux_tool, backend, get_credential}
use gpthands.Tunnel.Defs.{
  Environ, sanitized_runtime_env, set_variable, as_tunnel_error, runtime_env,
}
use gpthands.Tunnel.Environment.{IsPassed, runtime_env-IsPassed}

abbrev platform : Platform
platform = record {
  system = "Linux";
  keychain = false;
  secret_tool = some (ok ("/usr/bin/secret-tool", true));
  read = λ store name. ok "cp-key";
  write = λ store name secret. ok tt;
  delete = λ store name. ok true;
}

abbrev environ : Environ
environ = ("Path", "/usr/bin") ∷ ("OPENAI_API_KEY", "k1") ∷ []

abbrev passed : Environ
passed = ("Path", "/usr/bin") ∷ ("CONTROL_PLANE_API_KEY", "cp-key") ∷ []

given : runtime_env platform environ (some "main") ≡ ok (passed, some "cp-key")
unfolding runtime_env get_credential credential_name strip is_empty has_infix backend linux_tool
    string_discrete as_tunnel_error sanitized_runtime_env upper elem set_variable
given = refl

runtime_env-IsPassed_example : All (IsPassed environ (some "cp-key")) passed
runtime_env-IsPassed_example =
    runtime_env-IsPassed environ (some "cp-key") platform (some "main") passed given

replaced : ◌≡◌ {A = String} (replace_from 0 "ab" "X" "cabab") "cXX"
unfolding replace_from has_prefix
replaced = refl
