-- ===== src/Phrases/Keeps.antt =====
-- packages/graph-renderer/bloom-exploration.mjs: a graph phrase keeps a workspace well formed.
use network_analytics_predic.Workspace.Search.{expand_neighbors}
use network_analytics_predic.Workspace.Keeps.{expand_neighbors-WorkspaceOk, set_path-WorkspaceOk}
use network_analytics_predic.Graph.{Settings, Source}
use network_analytics_predic.Workspace.Valid.{content-WorkspaceOk, WorkspaceOk}
use network_analytics_predic.Workspace.State.{Workspace}
use network_analytics_predic.Phrases.Execute.{
  community, connected_ids, connected_by_type, path_between, unsupported, Parsed, pin_all,
  execute_community, execute_path, execute_connected, execute_parsed,
}
use network_analytics_predic.Prelude.{unique-Distinct, String, List, ◌∷◌}

pin_all-WorkspaceOk :
    (ids : List String) (w : Workspace) → WorkspaceOk w → WorkspaceOk (pin_all ids w)
pin_all-WorkspaceOk ids w h =
    let v = h.body.content in content-WorkspaceOk w h (search unique-Distinct)

pub execute_parsed-WorkspaceOk :
    (w : Workspace) (parsed : Parsed) (source : Source) (settings : Settings)
    → WorkspaceOk w
    → WorkspaceOk (execute_parsed w parsed source settings).workspace
unfolding execute_parsed execute_connected execute_path execute_community
execute_parsed-WorkspaceOk w (unsupported reason) source settings h = h
execute_parsed-WorkspaceOk w (path_between a b label) source settings h =
    set_path-WorkspaceOk w source settings a b h
execute_parsed-WorkspaceOk w (connected_by_type type target label) source settings h =
    pin_all-WorkspaceOk (target ∷ connected_ids source settings type target)
      (expand_neighbors w source settings target)
      (expand_neighbors-WorkspaceOk w source settings target h)
execute_parsed-WorkspaceOk w (community name label) source settings h =
    let v = h.body.content in content-WorkspaceOk w h (search unique-Distinct)
