-- ===== src/Adapter/Xml.antt =====
-- The elements that lxml hands out, and lxml's parser and search as a parameter.
use query_smith.Prelude.{String, List, [], ◌∷◌, Option, none, some, str_eq, if◌then◌else◌}
use query_smith.Prelude.Outcome.{Outcome, ok, err, value_error}

mutual
  pub data Xml : Type 0 where
    -- namespace, local name, attributes, and the nodes inside
    element : String → String → List (String × String) → Nodes → Xml
    -- a comment or a processing instruction, which the iteration over an element includes
    comment : Xml

  pub data Nodes : Type 0 where
    nil : Nodes
    cons : Xml → Nodes → Nodes

pub record Lxml : Type 0 where
  -- `etree.fromstring` of the text's UTF-8
  pub fromstring : String → Outcome Xml
  -- `elem.find(path, NSMAP)` and `elem.findall(path, NSMAP)`
  pub find : String → Xml → Option Xml
  pub findall : String → Xml → List Xml

-- `dict.get(key)`
abbrev pub lookup {ℓ} : {A : Type ℓ} → String → List (String × A) → Option A
lookup key [] = none
lookup key ((k, v) ∷ entries) = if str_eq key k then some v else lookup key entries

-- `dict.get(key, other)`
abbrev pub value_or {ℓ} : {A : Type ℓ} → A → Option A → A
value_or other none = other
value_or other (some v) = v

-- `etree.QName(elem).localname`
abbrev pub local_name : Xml → Outcome String
local_name (element namespace name attrs nodes) = ok name
local_name comment = err (value_error "Invalid input tag")

-- `elem.attrib.items()`
abbrev pub attributes : Xml → List (String × String)
attributes (element namespace name attrs nodes) = attrs
attributes comment = []

-- `elem.get(key)`
abbrev pub attribute : String → Xml → Option String
attribute key x = lookup key (attributes x)

-- `list(elem)`
abbrev pub inside : Xml → Nodes
inside (element namespace name attrs nodes) = nodes
inside comment = nil

abbrev pub list_of : Nodes → List Xml
list_of nil = []
list_of (cons x xs) = x ∷ list_of xs
