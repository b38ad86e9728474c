-- ===== src/Observability.antt =====
-- packages/observability.py: `ContextFormatter.format`, which puts the fields of `extra` behind the
-- message. The attributes of every record, the base class's rendering and Python's `repr` are
-- parameters.
mod Tests
use swarmscope.Base.{
  ℕ, Bool, true, false, not, ◌&&◌, ◌||◌, List, [], ◌∷◌, ◌++◌, Text, codes, any, same_text, text_lt,
  if◌then◌else◌, ◌==◌,
}

-- an attribute of a record, with the `repr` of its value
pub record Attribute : Type 0 where
  pub key : Text
  pub shown : Text

abbrev starts_underscored : Text → Bool
starts_underscored [] = false
starts_underscored (c ∷ cs) = c == 95

-- `_RESERVED`, from the attributes that every record has
abbrev pub is_reserved : List Text → Text → Bool
is_reserved every key = any (same_text key) (codes "message" ∷ codes "asctime" ∷ every)

-- the comprehension over `record.__dict__`
unfoldable pub context_of : List Text → List Attribute → List Attribute
context_of every [] = []
context_of every (a ∷ attributes) =
    if not (is_reserved every a.key) && not (starts_underscored a.key)
    then a ∷ context_of every attributes
    else context_of every attributes

abbrev pub insert_attribute : Attribute → List Attribute → List Attribute
insert_attribute a [] = a ∷ []
insert_attribute a (b ∷ bs) = if text_lt b.key a.key then b ∷ insert_attribute a bs else a ∷ b ∷ bs

-- `sorted(context.items())`
abbrev pub sorted_context : List Attribute → List Attribute
sorted_context [] = []
sorted_context (a ∷ attributes) = insert_attribute a (sorted_context attributes)

-- the fields, each with a space before it
abbrev pub fields_text : List Attribute → Text
fields_text [] = []
fields_text (a ∷ attributes) =
    codes " " ++ (a.key ++ (codes "=" ++ (a.shown ++ fields_text attributes)))

-- `format`, where `rendered` is what the base class gives
unfoldable pub format : List Text → Text → List Attribute → Text
unfolding context_of
format every rendered attributes =
    rendered ++ fields_text (sorted_context (context_of every attributes))
