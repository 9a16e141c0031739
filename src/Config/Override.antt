-- ===== src/Config/Override.antt =====
-- What the environment does to a configuration.
use monitoring_tool.Prelude.{◌≡◌, Bool, String, List, ℤ, arith}
use monitoring_tool.Config.{Config, set_text, set_int, set_bool, set_list, override_from_env}

module _ (env : String → String) where
  set_text_twice :
      (key old : String) → set_text env key (set_text env key old) ≡ set_text env key old
  unfolding set_text
  set_text_twice key old = ground arith

  set_int_twice :
      (key : String) (old : ℤ) → set_int env key (set_int env key old) ≡ set_int env key old
  unfolding set_int
  set_int_twice key old = ground arith

  set_bool_twice :
      (key : String) (old : Bool) → set_bool env key (set_bool env key old) ≡ set_bool env key old
  unfolding set_bool
  set_bool_twice key old = ground arith

  set_list_twice :
      (key : String) (old : List String)
      → set_list env key (set_list env key old) ≡ set_list env key old
  unfolding set_list
  set_list_twice key old = ground arith

  -- Overriding a configuration twice from one environment does what doing it once does.
  pub override_from_env_twice :
      {F : Type 0} (c : Config F)
      → override_from_env env (override_from_env env c) ≡ override_from_env env c
  override_from_env_twice c = simp (set_text_twice, set_int_twice, set_bool_twice, set_list_twice)
