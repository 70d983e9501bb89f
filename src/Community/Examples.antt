-- ===== src/Community/Examples.antt =====
-- Two communities and a node on its own.
use network_analytics_predic.Community.{Link, connected_components}
use network_analytics_predic.Community.Components.{connected_components-Parts}
use network_analytics_predic.Community.Parts.{Parts}
use network_analytics_predic.Community.Labels.{label_propagation_communities}
use network_analytics_predic.Community.Labels.Spread.{Spread, label_propagation_communities-Spread}
use network_analytics_predic.Gates.Folds.{sorts_after}
use network_analytics_predic.Prelude.{
  set_add, ◌≡◌, Bool, String, List, [], ◌∷◌, Option, none, some, if◌then◌else◌, ◌==◌, refl,
}

abbrev by_name : String → String → Bool
by_name a b = sorts_after b a

abbrev people : List String
people = "d" ∷ "a" ∷ "c" ∷ "b" ∷ "e" ∷ []

abbrev links : List Link
links =
    record { source = "a"; target = "c" }
    ∷ record { source = "d"; target = "b" }
    ∷ record { source = "a"; target = "x" }
    ∷ record { source = "c"; target = "c" }
    ∷ []

components_test :
    connected_components by_name people links
    ≡ some (("a" ∷ "c" ∷ []) ∷ ("b" ∷ "d" ∷ []) ∷ ("e" ∷ []) ∷ [])
unfolding connected_components
components_test = refl

connected_components-Parts_example :
    (cs : List (List String)) × (connected_components by_name people links ≡ some cs)
    × Parts links people people cs
connected_components-Parts_example = connected_components-Parts by_name people links

abbrev anchors : String → Option String
anchors id = if id == "a" then some "left" else if id == "b" then some "right" else none

labels_test :
    (label_propagation_communities by_name people links anchors none).communities
    ≡ ("e", "e" ∷ []) ∷ ("left", "a" ∷ "c" ∷ []) ∷ ("right", "b" ∷ "d" ∷ []) ∷ []
unfolding label_propagation_communities set_add
labels_test = refl

label_propagation_communities-Spread_example :
    Spread anchors people (label_propagation_communities by_name people links anchors none)
label_propagation_communities-Spread_example =
    label_propagation_communities-Spread by_name people links anchors none
