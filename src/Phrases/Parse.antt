-- ===== src/Phrases/Parse.antt =====
-- packages/graph-renderer/bloom-exploration.mjs: `cleanLabel`, `findNodeByPhrase`, `parseGraphPhrase`, and
-- `executeGraphPhrase` on a text.
use network_analytics_predic.Phrases.Pattern.{
  Piece, first_matched, is_blank, lazy_text, literal, matched, one_word, spaces, whole_text,
  text_end,
}
use network_analytics_predic.Phrases.Execute.{
  Parsed, PhraseResult, community, connected_by_type, execute_parsed, path_between, unsupported,
}
use network_analytics_predic.Graph.{Node, Settings, Source}
use network_analytics_predic.Workspace.State.{Workspace, normalized}
use Prim.Native.Char.{Char, code}
use network_analytics_predic.Prelude.{
  ◌&&◌, is_empty, ◌||◌, eqb, find, if◌then◌else◌, ◌==◌, ◌⧺◌, Bool, List, Option, String, lower,
  trim, none, some, [], ◌∷◌,
}

-- `ENTITY_ALIASES`
abbrev pub entity_aliases : List (String × String)
entity_aliases =
    ("accounts", "account")
    ∷ ("account", "account")
    ∷ ("people", "person")
    ∷ ("persons", "person")
    ∷ ("person", "person")
    ∷ ("devices", "device")
    ∷ ("device", "device")
    ∷ ("places", "place")
    ∷ ("place", "place")
    ∷ ("organizations", "organization")
    ∷ ("organization", "organization")
    ∷ []

abbrev pub alias_of : List (String × String) → String → Option String
alias_of [] word = none
alias_of ((alias, type) ∷ aliases) word = if alias == word then some type else alias_of aliases word

-- The characters of `[?.!,;:]`.
abbrev pub is_mark : Char → Bool
is_mark c =
    eqb (code c) 63
    || eqb (code c) 46
    || eqb (code c) 33
    || eqb (code c) 44
    || eqb (code c) 59
    || eqb (code c) 58

abbrev pub without_marks : String → String
without_marks String.[] = ""
without_marks (String.◌∷◌ c s) =
    let rest = without_marks s in if is_empty rest && is_mark c then "" else String.◌∷◌ c rest

unfoldable pub clean_label : String → String
unfolding trim
clean_label value = without_marks (trim value)

-- `replaceAll(/\s+/g, "")`
abbrev pub without_spaces : String → String
without_spaces String.[] = ""
without_spaces (String.◌∷◌ c s) =
    let rest = without_spaces s in if is_blank c then rest else String.◌∷◌ c rest

abbrev pub is_named : String → Node → Bool
unfolding normalized
is_named needle n =
    normalized n.id == needle
    || normalized n.label == needle
    || without_spaces (normalized n.label) == without_spaces needle

unfoldable pub find_node_by_phrase : Source → String → Option Node
unfolding is_named normalized
find_node_by_phrase source phrase = find (is_named (normalized phrase)) source.nodes

-- `paths?\s+between\s+(.+?)\s+and\s+(.+)$`, after its first word.
abbrev pub between_ends : List Piece
between_ends =
    spaces
    ∷ literal "between"
    ∷ spaces
    ∷ lazy_text
    ∷ spaces
    ∷ literal "and"
    ∷ spaces
    ∷ whole_text
    ∷ text_end
    ∷ []

-- `/^(?:show\s+)?paths?\s+between\s+(.+?)\s+and\s+(.+)$/i`
abbrev pub path_patterns : List (List Piece)
path_patterns =
    (literal "show" ∷ spaces ∷ literal "paths" ∷ between_ends)
    ∷ (literal "show" ∷ spaces ∷ literal "path" ∷ between_ends)
    ∷ (literal "paths" ∷ between_ends)
    ∷ (literal "path" ∷ between_ends)
    ∷ []

-- `/^show\s+(\w+)\s+connected\s+to\s+(.+)$/i`
abbrev pub connected_pattern : List Piece
connected_pattern =
    literal "show"
    ∷ spaces
    ∷ one_word
    ∷ spaces
    ∷ literal "connected"
    ∷ spaces
    ∷ literal "to"
    ∷ spaces
    ∷ whole_text
    ∷ text_end
    ∷ []

-- `/^show\s+community\s+(.+)$/i`
abbrev pub community_pattern : List Piece
community_pattern =
    literal "show" ∷ spaces ∷ literal "community" ∷ spaces ∷ whole_text ∷ text_end ∷ []

abbrev pub path_of : Option Node → Option Node → Parsed
path_of (some start) (some end_node) =
    path_between start.id end_node.id ("Path between " ⧺ start.label ⧺ " and " ⧺ end_node.label)
path_of none end_node =
    unsupported "Both path endpoints must be visible nodes in the authorized graph."
path_of (some start) none =
    unsupported "Both path endpoints must be visible nodes in the authorized graph."

abbrev pub connection_of : Option String → Option Node → Parsed
connection_of (some type) (some target) =
    connected_by_type type target.id (type ⧺ " nodes connected to " ⧺ target.label)
connection_of none target =
    unsupported "Connected-node phrases need a supported entity type and visible target node."
connection_of (some type) none =
    unsupported "Connected-node phrases need a supported entity type and visible target node."

-- The first and the second capture.
abbrev pub capture : List String → String
capture [] = ""
capture (a ∷ rest) = a

abbrev pub second : List String → String
second [] = ""
second (a ∷ rest) = capture rest

abbrev pub community_of : String → Parsed
unfolding clean_label lower
community_of name = community (lower (clean_label name)) ("Community " ⧺ clean_label name)

unfoldable pub parse_show : Source → String → Parsed
unfolding matched find_node_by_phrase community_of
parse_show source words = elim (matched connected_pattern words) [
  | some captures ↦
      connection_of (alias_of entity_aliases (capture captures))
        (find_node_by_phrase source (second captures))
  | none ↦ elim (matched community_pattern words) [
    | some captures ↦ community_of (capture captures)
    | none ↦
        unsupported
          "Supported examples: show accounts connected to Acct 777; paths between Acct 100 and Acct 901; show community mule bridge."
  ]
]

unfoldable pub parse_words : Source → String → Parsed
unfolding first_matched find_node_by_phrase parse_show
parse_words source words = elim (first_matched path_patterns words) [
  | some captures ↦
      path_of (find_node_by_phrase source (capture captures))
        (find_node_by_phrase source (second captures))
  | none ↦ parse_show source words
]

unfoldable pub parse_graph_phrase : String → Source → Parsed
unfolding clean_label normalized parse_words
parse_graph_phrase phrase source =
    let words = normalized (clean_label phrase) in
    if is_empty words
    then unsupported "Enter a graph exploration phrase first."
    else parse_words source words

unfoldable pub execute_graph_phrase : Workspace → String → Source → Settings → PhraseResult
unfolding parse_graph_phrase execute_parsed
execute_graph_phrase w phrase source settings =
    execute_parsed w (parse_graph_phrase phrase source) source settings
