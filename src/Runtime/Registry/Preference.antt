-- ===== src/Runtime/Registry/Preference.antt =====
-- Which engine a registry hands out when none is named.
use beemesh.Prelude.{◌≡◌, refl, Option, none, some, arith, if◌then◌else◌, unwrap_or}
use beemesh.Runtime.Registry.{
  RuntimeEngine, new_registry, register, get_engine, get_default_engine, set_default_engine,
  check_all, check_available_engines, register_mock, default_mock, create_default_registry,
}

module _ {W : Type 0} where
  -- Podman is the default if it is available; else Docker, if that is; else the mock engine, where
  -- the build has one; else Podman, which was registered first. The engines carry the names of
  -- their types, so the registry finds each under its name.
  create_default_registry_preference :
      (podman docker : RuntimeEngine W) (mock : Option (RuntimeEngine W)) (w : W)
      → podman.name ≡ "podman"
      → docker.name ≡ "docker"
      → ((e : RuntimeEngine W) → mock ≡ some e → e.name ≡ "mock")
      → get_default_engine (create_default_registry podman docker mock w)
        ≡ some (
            if podman.is_available w
            then podman
            else if docker.is_available w
            then docker
            else unwrap_or mock podman)
  unfolding create_default_registry get_default_engine get_engine set_default_engine register
      new_registry check_available_engines check_all register_mock default_mock
  create_default_registry_preference podman docker none w p d m = simp (p, d) (ground arith)
  create_default_registry_preference podman docker (some e) w p d m =
      simp (p, d, m e refl) (ground arith)
