-- ===== src/Protocol/Contexts.antt =====
-- The files of contexts under the calls of clients: which calls open or close the file of one, and what
-- they leave alone.
use paperlog.Base.{
  ◌⊎◌, inl, inr, Bool-cases, ap, ◌∙◌, subst, none, ◌≢◌, text_eq_iff, ◌≡◌, refl, arith, text_eq,
  false, Text,
}
use paperlog.Io.{new_file}
use paperlog.TextMap.{get, get-insert, get-remove}
use paperlog.ContextPath.{context_path}
use paperlog.ContextPath.Laws.{IsName}
use paperlog.LoggerThreadCtx.{
  LoggerThreadCtx, Sink, created, refused, Created, FileSystem, add_context, remove_context,
  add_sink,
}
use paperlog.Protocol.{Event, adds_context, removes_context, adds_sink, after_context}

-- An event that does not register the tag `k`.
abbrev pub OpensNo : Text → Event → Type 0
OpensNo k (adds_context fs tag) = text_eq tag k ≡ false
OpensNo k _ = Unit

-- An event that neither registers nor unregisters the tag `k`.
abbrev pub LeavesTag : Text → Event → Type 0
LeavesTag k (adds_context fs tag) = text_eq tag k ≡ false
LeavesTag k (removes_context tag) = text_eq tag k ≡ false
LeavesTag k _ = Unit

-- Two contexts in the directory `dir` whose files are different: their tags are plain names, and
-- `add_context` gives them different paths.
abbrev pub Apart : Text → Text → Text → Type 0
Apart dir tag k = IsName tag × IsName k × (context_path dir tag ≢ context_path dir k)

-- An event that neither opens nor closes the file of the context `k`, by whatever tag.
abbrev pub Spares : Text → Text → Event → Type 0
Spares dir k (adds_context fs tag) = Apart dir tag k
Spares dir k (removes_context tag) = text_eq tag k ≡ false
Spares dir k _ = Unit

Apart-text_eq : (dir tag k : Text) → Apart dir tag k → text_eq tag k ≡ false
Apart-text_eq dir tag k (a, b, apart) = elim (Bool-cases (text_eq tag k)) [
  | inr other ↦ other
  | inl same ↦ absurd (apart (ap (context_path dir) ((text_eq_iff tag k).0 same)))
]

pub Spares-LeavesTag : (dir k : Text) (e : Event) → Spares dir k e → LeavesTag k e
Spares-LeavesTag dir k (adds_context fs tag) a = Apart-text_eq dir tag k a
Spares-LeavesTag dir k (removes_context tag) a = a
Spares-LeavesTag dir k _ a = ground arith

-- A tag that such an event registers has another file.
pub Spares-opens :
    (dir k : Text) (e : Event) (tag : Text) → Spares dir k e → OpensNo tag e ⊎ Apart dir tag k
Spares-opens dir k (adds_context fs t) tag a = elim (Bool-cases (text_eq t tag)) [
  | inr other ↦ inl other
  | inl same ↦ inr (subst (λ u. Apart dir u k) ((text_eq_iff t tag).0 same) a)
]
Spares-opens dir k _ tag a = inl (ground arith)

-- It leaves the writers of other tags as they are.
pub record Spared (e : Event) (before after : LoggerThreadCtx) : Type 0 where
  pub same : (k : Text) → LeavesTag k e → get k after.context_map ≡ get k before.context_map
  pub none_new :
      (k : Text) → OpensNo k e → get k before.context_map ≡ none → get k after.context_map ≡ none

add_context-get :
    (fs : FileSystem) (ctx : LoggerThreadCtx) (tag k : Text)
    → text_eq tag k ≡ false
    → get k (after_context ctx (add_context fs ctx tag)).context_map ≡ get k ctx.context_map
unfolding add_context
add_context-get fs ctx tag k other =
    by_created (fs.create (context_path ctx.config.context_log_path tag)) refl
  where
    by_created :
        (c : Created)
        → fs.create (context_path ctx.config.context_log_path tag) ≡ c
        → get k (after_context ctx (add_context fs ctx tag)).context_map ≡ get k ctx.context_map
    by_created (created os) made = ground (arith, get-insert tag k (new_file os) ctx.context_map)
    by_created (refused e) failed = ground arith

pub add_context-Spared :
    (fs : FileSystem) (ctx : LoggerThreadCtx) (tag : Text)
    → Spared (adds_context fs tag) ctx (after_context ctx (add_context fs ctx tag))
add_context-Spared fs ctx tag = record {
  same = λ k other. add_context-get fs ctx tag k other;
  none_new = λ k other nothing. add_context-get fs ctx tag k other ∙ nothing;
}

pub add_sink-Spared :
    (ctx : LoggerThreadCtx) (sink : Sink) → Spared (adds_sink sink) ctx (add_sink ctx sink)
unfolding add_sink
add_sink-Spared ctx sink = record { same = λ k other. refl; none_new = λ k other nothing. nothing }

pub remove_context-Spared :
    (ctx : LoggerThreadCtx) (tag : Text) → Spared (removes_context tag) ctx (remove_context ctx tag)
unfolding remove_context
remove_context-Spared ctx tag = record {
  same = λ k other. ground (arith, get-remove tag k ctx.context_map);
  none_new = λ k other nothing. ground (arith, get-remove tag k ctx.context_map);
}
