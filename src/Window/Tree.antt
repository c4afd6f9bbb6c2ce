-- ===== src/Window/Tree.antt =====
-- `FilterTreeItem` and `OnProcessFilterChanged`: which items of the process tree are hidden.
use scrambler.Prelude.{
  ℕ, ◌≡◌, refl, sym, Bool, true, false, not, ◌&&◌, ◌||◌, List, [], ◌∷◌, ◌++◌, if◌then◌else◌,
}
use scrambler.Processes.{is_empty}

-- An item of the tree with its two texts, and the items below it.
mutual
  pub data Item : Type 0 where
    node : (pid_text name : List ℕ) → (hidden expanded : Bool) → Items → Item

  pub data Items : Type 0 where
    nil : Items
    cons : Item → Items → Items

-- The texts of every item, in the order of the tree.
unfoldable mutual
  pub texts : Item → List (List ℕ × List ℕ)
  texts (node pid_text name hidden expanded children) = (pid_text, name) ∷ texts_of children

  pub texts_of : Items → List (List ℕ × List ℕ)
  texts_of nil = []
  texts_of (cons i is) = texts i ++ texts_of is

abbrev pub any : {A : Type 0} → (A → Bool) → List A → Bool
any p [] = false
any p (x ∷ xs) = p x || any p xs

opened : (sought expanded : Bool) → (sought && not (if sought then true else expanded)) ≡ false
opened true expanded = refl
opened false expanded = refl

or_assoc : (a b c : Bool) → (a || (b || c)) ≡ ((a || b) || c)
or_assoc true b c = refl
or_assoc false b c = refl

not_or : (a b : Bool) → (not a && not b) ≡ not (a || b)
not_or true b = refl
not_or false b = refl

any-append :
    {A : Type 0} (p : A → Bool) (xs ys : List A) → any p (xs ++ ys) ≡ (any p xs || any p ys)
any-append p [] ys = refl
any-append p (x ∷ xs) ys = rw (any-append p xs ys) (or_assoc (p x) (any p xs) (any p ys))

-- `contains s t` is QString::contains without case.
module _ (contains : List ℕ → List ℕ → Bool) (text : List ℕ) where
  abbrev pub self_matches : List ℕ × List ℕ → Bool
  self_matches (pid_text, name) = is_empty text || (contains pid_text text || contains name text)

  -- `FilterTreeItem`, and its loop over the children; the first part of a result is what it
  -- returns.
  unfoldable mutual
    pub filter_tree_item : Item → Bool × Item
    filter_tree_item (node pid_text name hidden expanded children) =
        let (any_descendant_matches, filtered) = filter_children children in
        let matches = self_matches (pid_text, name) in
        (
          matches || any_descendant_matches,
          node pid_text name (not matches && not any_descendant_matches)
              (if not (is_empty text) && any_descendant_matches then true else expanded) filtered,
        )

    pub filter_children : Items → Bool × Items
    filter_children nil = (false, nil)
    filter_children (cons i is) =
        let (matches, i') = filter_tree_item i in
        let (others, is') = filter_children is in (matches || others, cons i' is')

  -- `OnProcessFilterChanged`, on the items at the top.
  unfoldable pub on_process_filter_changed : Items → Items
  unfolding filter_children
  on_process_filter_changed items = (filter_children items).1

  -- An item is hidden unless it or one below it matches, and one above a match is open if there
  -- is a text to look for; so at every depth.
  mutual
    pub IsFiltered : Item → Type 0
    IsFiltered (node pid_text name hidden expanded children) =
        (hidden ≡ not (any self_matches ((pid_text, name) ∷ texts_of children)))
        × (((not (is_empty text) && any self_matches (texts_of children)) && not expanded) ≡ false)
        × AreFiltered children

    pub AreFiltered : Items → Type 0
    AreFiltered nil = Unit
    AreFiltered (cons i is) = IsFiltered i × AreFiltered is

  mutual
    unfolding filter_tree_item texts IsFiltered

    filter_tree_item_lem :
        (i : Item)
        → ((filter_tree_item i).0 ≡ any self_matches (texts i))
          × (texts (filter_tree_item i).1 ≡ texts i)
          × IsFiltered (filter_tree_item i).1
    filter_tree_item_lem (node pid_text name hidden expanded children) =
        let (matches, same, filtered) = filter_children_lem children in
        rw (matches, same)
          (
            refl,
            refl,
            (
              not_or (self_matches (pid_text, name)) (any self_matches (texts_of children)),
              opened (not (is_empty text) && any self_matches (texts_of children)) expanded,
              filtered,
            ),
          )

    filter_children_lem :
        (is : Items)
        → ((filter_children is).0 ≡ any self_matches (texts_of is))
          × (texts_of (filter_children is).1 ≡ texts_of is)
          × AreFiltered (filter_children is).1
    filter_children_lem nil = (refl, refl, tt)
    filter_children_lem (cons i is) =
        let (matches, same, filtered) = filter_tree_item_lem i in
        let (others, same_others, filtered_others) = filter_children_lem is in
        (
          rw (matches, others) (sym (any-append self_matches (texts i) (texts_of is))),
          rw (same, same_others) refl,
          (filtered, filtered_others),
        )

  -- The filter, on a tree of any depth: every item is still there with its texts, in the same order.
  -- An item is hidden unless it, or an item somewhere below it, matches the text in its pid or
  -- its name; an empty text hides nothing. With a text to look for, an item above a match is open.
  pub process_filter_hides :
      (items : Items)
      → let filtered = on_process_filter_changed items in
        (texts_of filtered ≡ texts_of items) × AreFiltered filtered
  unfolding on_process_filter_changed
  process_filter_hides items =
      let (_, same, filtered) = filter_children_lem items in (same, filtered)
