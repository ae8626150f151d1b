-- ===== src/NodePlugin/Server.antt =====
-- `serveCSI` of cmd/nodeplugin/main.go, and the calls of the CSI server that only describe the plugin.
use gitrepo_csi_driver.Base.{ℕ, ◌≡◌, refl, List, [], ◌∷◌, Result, ok, if◌then◌else◌}
use gitrepo_csi_driver.Text.{Text, codes, same}
use gitrepo_csi_driver.Paths.{dir}
use gitrepo_csi_driver.Admission as Admission
use gitrepo_csi_driver.Materializer.Action.{Action, ◌>>=◌, ◌>>◌, lift, call}
use gitrepo_csi_driver.NodePlugin.Service.{parse_endpoint}

-- What serving asks of the system; `serve` is `grpcServer.Serve`, which returns when the listener fails.
pub data Call : Type 0 where
  made_all : (path : Text) → (mode : ℕ) → Call
  removed : (path : Text) → Call
  listen : (network address : Text) → Call
  serve : Call

module _ (answer : List Call → Result (Unit {0})) where
  -- The socket's directory is made, and a socket that was left behind is removed; an error of that is
  -- ignored.
  unfoldable pub prepare_socket : Text → Text → Action Call (Unit {0})
  prepare_socket network address =
      if same network (codes "unix")
      then (do call answer (made_all (dir address) 0o750); call (λ trace. ok tt) (removed address))
      else lift (ok tt)

  unfoldable pub serve_at : Text × Text → Action Call (Unit {0})
  serve_at (network, address) = do
    prepare_socket network address
    call answer (listen network address)
    call answer serve

  -- `serveCSI`
  unfoldable pub serve_csi : Text → Action Call (Unit {0})
  serve_csi endpoint = do at ← lift (parse_endpoint endpoint); serve_at at

-- `driverName`
abbrev pub driver_name : Text
driver_name = codes "gitcontent.csi.example.io"

-- `csi.GetPluginInfoResponse`
pub record PluginInfo : Type 0 where
  pub name : Text
  pub vendor_version : Text

-- The one capability of the plugin service that the plugin has.
pub data ServiceCapability : Type 0 where
  volume_accessibility_constraints : ServiceCapability

unfoldable pub get_plugin_info : PluginInfo
get_plugin_info = record { name = driver_name; vendor_version = codes "dev" }

unfoldable pub get_plugin_capabilities : List ServiceCapability
get_plugin_capabilities = volume_accessibility_constraints ∷ []

-- `NodeGetInfo`, from the server's node.
unfoldable pub node_get_info : Text → Text
node_get_info node_id = node_id

-- The webhook looks at the volumes of the driver that the plugin says it is.
plugin_name : get_plugin_info.name ≡ Admission.driver_name
unfolding get_plugin_info
plugin_name = refl
