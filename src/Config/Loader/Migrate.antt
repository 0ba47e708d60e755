-- ===== src/Config/Loader/Migrate.antt =====
-- The migration moves the old members and nothing else, and happens once (src/config/loader.rs).
use anycode.Base.{
  String, ◌≡◌, refl, ap, ◌∙◌, Bool, true, false, not, ◌&&◌, ◌||◌, is_some, Option, none, some, List,
  [], ◌∷◌, arith, str_eq, str_eq_iff, if◌then◌else◌,
}
use anycode.Config.Loader.{
  get, remove, insert, insert_found, claude_table, without_old, migrate_toml_value,
}

-- A file of the old format: it has backends or defaults and no member for the profile yet.
abbrev pub is_old_format : {V : Type 0} → List (String × V) → Bool
is_old_format t =
    not (is_some (get t "claude")) && (is_some (get t "backends") || is_some (get t "defaults"))

-- The members that the migration moves.
abbrev pub is_old : String → Bool
is_old k =
    str_eq "claude_settings" k || str_eq "agents" k || str_eq "backends" k || str_eq "defaults" k

module _ {V : Type 0} where
  get-remove :
      (t : List (String × V)) (k j : String)
      → get (remove t k) j ≡ (if str_eq k j then none else get t j)
  get-remove [] k j = ground arith
  get-remove ((i, v) ∷ t) k j =
      ground (arith, get-remove t k j, str_eq_iff i k, str_eq_iff k j, str_eq_iff i j)

  get-insert :
      (t : List (String × V)) (k j : String) (v : V)
      → get (insert t k v) j ≡ (if str_eq k j then some v else get t j)
  get-insert t k j v = ground (arith, get-remove t k j)

  get-insert_found :
      (t : List (String × V)) (k j : String) (o : Option V)
      → get t k ≡ none
      → get (insert_found t k o) j ≡ (if str_eq k j then o else get t j)
  get-insert_found t k j none e = ground (arith, str_eq_iff k j)
  get-insert_found t k j (some v) e = get-insert t k j v

  -- Adding a member that is not there yet, when the others are known.
  claude_table_chain :
      (t : List (String × V)) (j : String)
      → get (claude_table t) j ≡ (
          if str_eq "claude_settings" j
          then get t "claude_settings"
          else if str_eq "agents" j
          then get t "agents"
          else if str_eq "backends" j
          then get t "backends"
          else if str_eq "defaults" j
          then get t "defaults"
          else none)
  claude_table_chain t j = four j
    where
      t1 : List (String × V)
      t1 = insert_found [] "defaults" (get t "defaults")

      t2 : List (String × V)
      t2 = insert_found t1 "backends" (get t "backends")

      t3 : List (String × V)
      t3 = insert_found t2 "agents" (get t "agents")

      one : (i : String) → get t1 i ≡ (if str_eq "defaults" i then get t "defaults" else none)
      one i = get-insert_found [] "defaults" i (get t "defaults") refl

      two :
          (i : String)
          → get t2 i ≡ (
              if str_eq "backends" i
              then get t "backends"
              else if str_eq "defaults" i
              then get t "defaults"
              else none)
      two i =
          get-insert_found t1 "backends" i (get t "backends") (one "backends")
          ∙ ap (λ o. if str_eq "backends" i then get t "backends" else o) (one i)

      three :
          (i : String)
          → get t3 i ≡ (
              if str_eq "agents" i
              then get t "agents"
              else if str_eq "backends" i
              then get t "backends"
              else if str_eq "defaults" i
              then get t "defaults"
              else none)
      three i =
          get-insert_found t2 "agents" i (get t "agents") (two "agents")
          ∙ ap (λ o. if str_eq "agents" i then get t "agents" else o) (two i)

      four :
          (i : String)
          → get (claude_table t) i ≡ (
              if str_eq "claude_settings" i
              then get t "claude_settings"
              else if str_eq "agents" i
              then get t "agents"
              else if str_eq "backends" i
              then get t "backends"
              else if str_eq "defaults" i
              then get t "defaults"
              else none)
      four i =
          get-insert_found t3 "claude_settings" i (get t "claude_settings")
            (three "claude_settings")
          ∙ ap (λ o. if str_eq "claude_settings" i then get t "claude_settings" else o) (three i)

  get-without_old :
      (t : List (String × V)) (j : String)
      → get (without_old t) j ≡ (if is_old j then none else get t j)
  get-without_old t j =
      let t1 = remove t "backends" in
      let t2 = remove t1 "defaults" in
      let t3 = remove t2 "agents" in
      ground (
        arith,
        get-remove t3 "claude_settings" j,
        get-remove t2 "agents" j,
        get-remove t1 "defaults" j,
        get-remove t "backends" j,
      )

  -- The value of a key that a name is equal to is the value of the name.
  same_value :
      (t : List (String × V)) (k j : String) (o : Option V)
      → (if str_eq k j then get t k else o) ≡ (if str_eq k j then get t j else o)
  same_value t k j o = go (str_eq k j) refl
    where
      go : (b : Bool) → str_eq k j ≡ b → (if b then get t k else o) ≡ (if b then get t j else o)
      go true e = ap (get t) ((str_eq_iff k j).0 e)
      go false e = refl

  any_of :
      (a b c d : Bool) (x : Option V)
      → (if a then x else if b then x else if c then x else if d then x else none)
        ≡ (if a || b || c || d then x else none)
  any_of a b c d x = ground arith

  -- The new table of the profile has the values of the old members and no others.
  get-claude_table :
      (t : List (String × V)) (j : String)
      → get (claude_table t) j ≡ (if is_old j then get t j else none)
  get-claude_table t j =
      claude_table_chain t j
      ∙ same_value t "claude_settings" j _
      ∙ ap (λ o. if str_eq "claude_settings" j then get t j else o)
          (same_value t "agents" j _
            ∙ ap (λ o. if str_eq "agents" j then get t j else o)
                (same_value t "backends" j _
                  ∙ ap (λ o. if str_eq "backends" j then get t j else o)
                      (same_value t "defaults" j none)))
      ∙ any_of (str_eq "claude_settings" j) (str_eq "agents" j) (str_eq "backends" j)
          (str_eq "defaults" j) (get t j)

  -- A migration happens exactly if the table is of the old format. It puts the four old members under
  -- the member of the profile and leaves all other members as they are; without one, the table is
  -- left as it is. A second migration does nothing.
  pub migrate_toml_value_lem :
      (table : List (String × V) → V) (t : List (String × V)) (j : String)
      → let r = migrate_toml_value table t in
        (r.1 ≡ is_old_format t)
        × (get r.0 j ≡ (
            if not (is_old_format t)
            then get t j
            else if str_eq "claude" j
            then some (table (claude_table t))
            else if is_old j
            then none
            else get t j))
        × (get (claude_table t) j ≡ (if is_old j then get t j else none))
        × (migrate_toml_value table r.0 ≡ (r.0, false))
  unfolding migrate_toml_value
  migrate_toml_value_lem table t j =
      go (is_some (get t "claude")) (is_some (get t "backends")) (is_some (get t "defaults")) refl
        refl refl
    where
      new : List (String × V)
      new = insert (without_old t) "claude" (table (claude_table t))

      Moved : Bool → List (String × V) × Bool → Type 0
      Moved old r =
          (r.1 ≡ old)
          × (get r.0 j ≡ (
              if not old
              then get t j
              else if str_eq "claude" j
              then some (table (claude_table t))
              else if is_old j
              then none
              else get t j))
          × (get (claude_table t) j ≡ (if is_old j then get t j else none))
          × (migrate_toml_value table r.0 ≡ (r.0, false))

      result : Bool → Bool → Bool → List (String × V) × Bool
      result a b c = if a then (t, false) else if not b && not c then (t, false) else (new, true)

      split :
          (a b c : Bool)
          → is_some (get t "claude") ≡ a
          → is_some (get t "backends") ≡ b
          → is_some (get t "defaults") ≡ c
          → migrate_toml_value table t ≡ result a b c
      split a b c e f g =
          ap (λ x. result x (is_some (get t "backends")) (is_some (get t "defaults"))) e
          ∙ ap (λ x. result a x (is_some (get t "defaults"))) f
          ∙ ap (result a b) g

      migrated : Moved true (new, true)
      migrated = (
        refl,
        get-insert (without_old t) "claude" j (table (claude_table t))
            ∙ ap (λ o. if str_eq "claude" j then some (table (claude_table t)) else o)
                (get-without_old t j),
        get-claude_table t j,
        refl,
      )

      go :
          (a b c : Bool)
          → is_some (get t "claude") ≡ a
          → is_some (get t "backends") ≡ b
          → is_some (get t "defaults") ≡ c
          → Moved (not a && (b || c)) (result a b c)
      go true b c e f g = (refl, refl, get-claude_table t j, split true b c e f g)
      go false false false e f g = (refl, refl, get-claude_table t j, split false false false e f g)
      go false true c e f g = migrated
      go false false true e f g = migrated
