-- ===== src/Engines/Podman/Sockets.antt =====
-- Where podman's commands run: an engine that is configured with a socket uses nothing but it.
use beemesh.Prelude.{
  ◌≡◌, refl, String, List, true, false, Option, some, none, ok, err, Result, arith,
}
use beemesh.Text.Affixes.{trim}
use beemesh.Runtime.{RuntimeResult, command_failed}
use beemesh.Node.{Libraries}
use beemesh.Engines.{Command, Output, System}
use beemesh.Engines.Podman.{
  PodmanEngine, configure_podman_runtime, normalized, new_podman, remote_command, execute_command,
  execute_on, after_socket, execute_command_with_socket,
}
use beemesh.Engines.Podman.Manifests.{is_available}

module _ {W Y J : Type 0} (lib : Libraries Y) (sys : System W Y J) where
  abbrev Answers : Type 0
  Answers = Command → W → W × Result Output String

  after_socket-remote :
      (p : PodmanEngine) (other : Answers) (args : List String) (s : W × RuntimeResult String)
      → p.force_remote ≡ true
      → after_socket lib (record sys { output = other }) p args s ≡ after_socket lib sys p args s
  unfolding after_socket
  after_socket-remote p other args (w, ok output) forced = refl
  after_socket-remote p other args (w, err e) forced = rw forced refl

  over_socket :
      (p : PodmanEngine) (other : Answers) (args : List String) (socket : String) (w : W)
      → other (remote_command p socket args) w ≡ sys.output (remote_command p socket args) w
      → execute_command_with_socket lib (record sys { output = other }) p args socket w
        ≡ execute_command_with_socket lib sys p args socket w
  unfolding execute_command_with_socket
  over_socket p other args socket w same = rw same refl

  execute_on-remote :
      (p : PodmanEngine) (other : Answers) (socket : Option String)
      → p.force_remote ≡ true
      → ((socket : String) (args : List String) (w : W)
          → other (remote_command p socket args) w ≡ sys.output (remote_command p socket args) w)
      → (args : List String) (w : W)
      → execute_on lib (record sys { output = other }) p socket args w
        ≡ execute_on lib sys p socket args w
  unfolding execute_on
  execute_on-remote p other none forced same args w = rw forced refl
  execute_on-remote p other (some socket) forced same args w =
      rw (over_socket p other args socket w (same socket args w)) (
        after_socket-remote p other args (execute_command_with_socket lib sys p args socket w)
          forced)

  -- An engine that must use its socket runs no other command: on a system that may answer every
  -- local command in another way, its commands end alike.
  pub execute_command-remote :
      (p : PodmanEngine) (other : Answers)
      → p.force_remote ≡ true
      → ((socket : String) (args : List String) (w : W)
          → other (remote_command p socket args) w ≡ sys.output (remote_command p socket args) w)
      → (args : List String) (w : W)
      → execute_command lib (record sys { output = other }) p args w
        ≡ execute_command lib sys p args w
  unfolding execute_command
  execute_command-remote p other forced same args w =
      execute_on-remote p other p.podman_socket forced same args w

abbrev pub configured : (socket : String) → PodmanEngine
configured socket = new_podman (configure_podman_runtime (some socket))

blank_socket : (socket : String) → trim socket ≡ "" → (configured socket).podman_socket ≡ none
unfolding configure_podman_runtime new_podman normalized trim
blank_socket socket blank = rw (blank, normalized) refl

pub forced_remote : (socket : String) → (configured socket).force_remote ≡ true
unfolding configure_podman_runtime new_podman
forced_remote socket = refl

module _ {W Y J : Type 0} (lib : Libraries Y) (sys : System W Y J) where
  execute_on-none :
      (p : PodmanEngine) (socket : Option String) (args : List String) (w : W)
      → socket ≡ none
      → p.force_remote ≡ true
      → execute_on lib sys p socket args w
        ≡ (w, err (command_failed "Podman socket command failed and fallback disabled"))
  unfolding execute_on
  execute_on-none p none args w off forced = rw forced refl
  execute_on-none p (some socket) args w off forced = cc

  unavailable :
      (p : PodmanEngine) (w : W)
      → p.podman_socket ≡ none
      → p.force_remote ≡ true
      → is_available lib sys p w ≡ false
  unfolding is_available
  unavailable p w off forced = ground arith

  -- A socket that is blank turns the engine off: the engine is not available, and every command
  -- fails without having run, though `podman` could be run locally.
  pub execute_command_blank :
      (socket : String)
      → trim socket ≡ ""
      → (w : W)
      → (is_available lib sys (configured socket) w ≡ false)
        × ((args : List String)
            → execute_command lib sys (configured socket) args w
              ≡ (w, err (command_failed "Podman socket command failed and fallback disabled")))
  unfolding execute_command
  execute_command_blank socket blank w =
      let off = blank_socket socket blank in
      let forced = forced_remote socket in
      (
        unavailable (configured socket) w off forced,
        λ args. execute_on-none (configured socket) _ args w off forced,
      )
