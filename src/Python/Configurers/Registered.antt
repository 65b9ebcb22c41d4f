-- ===== src/Python/Configurers/Registered.antt =====
-- python/bindings/bind_auto_configurer.cpp: what `auto_configure` of a Python program does.
use mosaic_core.Base.{String, ◌≡◌, refl, Bool, true, false, arith}
use mosaic_core.Env.{Env}
use mosaic_core.Config.Reader.{Yaml}
use mosaic_core.WebSocket.{Task}
use mosaic_core.AutoConfigurer.{Configurables, Configurer, Step, auto_configure}
use mosaic_core.Python.Configurers.{auto_configure_file, python_auto_configure}

module _ (env : Env) (classes : Configurables env) (path_extension : String → String)
    (yaml : Yaml) where
  -- For a Python subclass `auto_configure` does what `AutoConfigure` does, with the Python methods as
  -- the two hooks: the same result, the same exception at the same step, and the same state after it.
  pub python_auto_configure_lem :
      (python : Bool) (file_path : String) (dial : Task) (before after : Step env classes Unit)
      (a : Configurer env classes)
      → python_auto_configure env classes path_extension yaml python file_path dial before after a
        ≡ auto_configure_file env classes path_extension yaml file_path dial before after a
  unfolding python_auto_configure auto_configure_file auto_configure
  python_auto_configure_lem true file_path dial before after a = ground arith
  python_auto_configure_lem false file_path dial before after a = refl
