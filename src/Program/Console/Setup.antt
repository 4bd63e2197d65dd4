-- ===== src/Program/Console/Setup.antt =====
-- `setup_console` of main.cpp: the global `console` with its methods, over the calls of QuickJS that
-- make objects and set their properties.
use mathlib.Core.Path.{subst}
use quick_js_debugger.Prelude.{
  ◌≡◌, ◌≢◌, refl, sym, ap, ◌∙◌, List, [], ◌∷◌, Option, some, All, false, arith,
}
use quick_js_debugger.Text.Bytes.{Bytes, codes, equal, equal_iff}

-- JS_GetGlobalObject, JS_NewObject, JS_NewCFunction of `js_console_log` under a name, and
-- JS_SetPropertyStr, on the state `W` of the engine. `property` is what a script reads, and
-- `native_name` the name that a function was made under, if it is `js_console_log`.
pub record Realm (W V : Type 0) : Type 0 where
  pub global : W → V
  pub new_object : W → W × V
  pub new_function : W → Bytes → W × V
  pub set_property : W → V → Bytes → V → W
  pub property : W → V → Bytes → V
  pub native_name : V → Option Bytes

-- What QuickJS promises: a property that was set is read, no other name's is changed, and what is
-- made changes no properties.
pub record IsRealm {W V : Type 0} (r : Realm W V) : Type 0 where
  pub reads : (w : W) (o v : V) (k : Bytes) → r.property (r.set_property w o k v) o k ≡ v
  pub others :
      (w : W) (o p v : V) (k j : Bytes)
      → k ≢ j
      → r.property (r.set_property w o k v) p j ≡ r.property w p j
  pub made :
      (w : W) (name : Bytes) (p : V) (j : Bytes)
      → r.property (r.new_function w name).0 p j ≡ r.property w p j
  pub native : (w : W) (name : Bytes) → r.native_name (r.new_function w name).1 ≡ some name

abbrev pub console_methods : List Bytes
console_methods = codes "log" ∷ codes "info" ∷ codes "warn" ∷ codes "error" ∷ codes "debug" ∷ []

module _ {W V : Type 0} (r : Realm W V) where
  -- `JS_SetPropertyStr(ctx, console, name, JS_NewCFunction(ctx, js_console_log, name, 1))`.
  pub set_method : W → V → Bytes → W
  set_method w console name =
      let (w', f) = r.new_function w name in r.set_property w' console name f

  pub set_methods : W → V → List Bytes → W
  unfolding set_method
  set_methods w console [] = w
  set_methods w console (name ∷ names) = set_methods (set_method w console name) console names

  unfoldable pub setup_console : W → W
  unfolding set_methods
  setup_console w =
      let global = r.global w in
      let (w', console) = r.new_object w in
      r.set_property (set_methods w' console console_methods) global (codes "console") console

apart : {a b : Bytes} → equal a b ≡ false → a ≢ b
apart {a} {b} t = ground (arith, equal_iff a b, t)

-- No name comes twice.
abbrev AreDistinct : List Bytes → Type 0
AreDistinct [] = Unit
AreDistinct (k ∷ ks) = All (λ j. j ≢ k) ks × AreDistinct ks

module _ {W V : Type 0} (r : Realm W V) (ok : IsRealm r) where
  -- The methods that are set later leave a property of another name alone.
  set_methods_other :
      (w : W) (console : V) (k : Bytes) (names : List Bytes)
      → All (λ j. j ≢ k) names
      → r.property (set_methods r w console names) console k ≡ r.property w console k
  unfolding set_methods set_method
  set_methods_other w console k [] h = refl
  set_methods_other w console k (name ∷ names) (ne, h) =
      set_methods_other (set_method r w console name) console k names h
      ∙ ok.others (r.new_function w name).0 console console (r.new_function w name).1 name k ne
      ∙ ok.made w name console k

  abbrev HasMethod : W → V → Bytes → Type 0
  HasMethod w console name = r.native_name (r.property w console name) ≡ some name

  set_methods-HasMethod :
      (w : W) (console : V) (names : List Bytes)
      → AreDistinct names
      → All (HasMethod (set_methods r w console names) console) names
  unfolding set_methods set_method
  set_methods-HasMethod w console [] h = tt
  set_methods-HasMethod w console (name ∷ names) (fresh, h) = (
    ap r.native_name (
          set_methods_other (set_method r w console name) console name names fresh
          ∙ ok.reads (r.new_function w name).0 console (r.new_function w name).1 name)
        ∙ ok.native w name,
    set_methods-HasMethod (set_method r w console name) console names h,
  )

  kept :
      (w : W) (global console : V) (names : List Bytes)
      → All (λ j. codes "console" ≢ j) names
      → All (HasMethod w console) names
      → All (HasMethod (r.set_property w global (codes "console") console) console) names
  kept w global console [] ne h = tt
  kept w global console (name ∷ names) (n, ne) (here, h) = (
    ap r.native_name (ok.others w global console console (codes "console") name n) ∙ here,
    kept w global console names ne h,
  )

  -- Behind `setup_console`, the property `console` of the global object is an object whose `log`,
  -- `info`, `warn`, `error` and `debug` are each `js_console_log`, made under that name.
  setup_console-HasMethod :
      (w : W)
      → let after = setup_console r w in
        All (HasMethod after (r.property after (r.global w) (codes "console"))) console_methods
  unfolding setup_console equal
  setup_console-HasMethod w =
      let (made, console) = r.new_object w in
      let set = set_methods r made console console_methods in
      subst
        (λ c.
          All (HasMethod (r.set_property set (r.global w) (codes "console") console) c)
            console_methods)
        (sym (ok.reads set (r.global w) console (codes "console")))
        (kept set (r.global w) console console_methods others_than_console
          (set_methods-HasMethod made console console_methods distinct))
    where
      others_than_console : All (λ j. codes "console" ≢ j) console_methods
      others_than_console = (apart refl, (apart refl, (apart refl, (apart refl, (apart refl, tt)))))

      distinct : AreDistinct console_methods
      distinct = (
        (apart refl, (apart refl, (apart refl, (apart refl, tt)))),
        (
          (apart refl, (apart refl, (apart refl, tt))),
          ((apart refl, (apart refl, tt)), ((apart refl, tt), (tt, tt))),
        ),
      )
