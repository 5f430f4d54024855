-- ===== src/Prompts/FewShot/Pieces.antt =====
-- The layout of a few-shot prompt.
use langchain_cpp.Base.{
  ◌≡◌, List, [], ◌∷◌, ◌++◌, map, append_assoc, append-nil, if◌then◌else◌, is_empty,
}
use langchain_cpp.Base.Text.{Text}
use langchain_cpp.Base.Outcome.{ok}
use langchain_cpp.Prompts.Template.{PromptValues, render_template}
use langchain_cpp.Base.Join.{join, joined_behind}
use langchain_cpp.Prompts.FewShot.{Config, chosen, format}

-- Each piece with the separator behind it, and then the end.
abbrev pub each_before : Text → List Text → Text → Text
each_before separator [] end = end
each_before separator (p ∷ ps) end = p ++ (separator ++ each_before separator ps end)

joined_behind-each_before :
    (separator : Text) (ps : List Text) (end : Text)
    → joined_behind separator (ps ++ end ∷ []) ≡ separator ++ each_before separator ps end
unfolding joined_behind
joined_behind-each_before separator [] end = rw append-nil
joined_behind-each_before separator (p ∷ ps) end = rw (joined_behind-each_before separator ps end)

join-each_before :
    (separator : Text) (ps : List Text) (end : Text)
    → join separator (ps ++ end ∷ []) ≡ each_before separator ps end
unfolding join
join-each_before separator [] end = rw append-nil
join-each_before separator (p ∷ ps) end = rw (joined_behind-each_before separator ps end)

-- The prompt is the prefix, if there is one, then each example, in the order in which the selector
-- or the configuration gives them, and then the suffix with the caller's values; a separator
-- stands behind each part but the suffix.
pub format_lem :
    {W : Type 0} (c : Config W) (values : PromptValues) (examples : List PromptValues) (w w' : W)
    → chosen c values w ≡ (ok examples, w')
    → format c values w ≡ (
      ok (
          each_before c.example_separator
            ((if is_empty c.prefix then [] else c.prefix ∷ [])
              ++ map (render_template c.example_template) examples)
            (render_template c.suffix values)),
      w',
    )
unfolding format
format_lem c values examples w w' h = rw (h, ← append_assoc, join-each_before)
