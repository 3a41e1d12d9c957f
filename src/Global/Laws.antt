-- ===== src/Global/Laws.antt =====
-- What the first call of `init_logger` leaves, and when it panics.
use paperlog.Base.{
  ◌≡◌, ◌⊎◌, refl, inl, inr, Text, none, some, arith, Option-cases, true, false, [], List,
}
use paperlog.Io.{IoError, Outcome, new_file}
use paperlog.LoggerThreadCtx.{
  LoggerConfig, LoggerThreadCtx, FileSystem, Created, created, refused, new, init,
}
use paperlog.Protocol.Record.{IsNew}
use paperlog.Global.{init_logger, expect_new, expect_init}

-- A directory or the file cannot be made.
abbrev pub Fails : FileSystem → LoggerConfig → Text → Type 0
Fails fs config path =
    ((e : IoError) × (fs.create_dir_all config.context_log_path ≡ some e))
    ⊎ ((parent : Text) × (e : IoError) × (fs.parent path ≡ some parent)
        × (fs.create_dir_all parent ≡ some e))
    ⊎ ((e : IoError) × (fs.create path ≡ refused e))

-- A logger that is ready, of this configuration, without contexts or sinks, which writes to the file
-- made at this path.
pub record IsReady (fs : FileSystem) (wanted : LoggerConfig) (path : Text) (ctx : LoggerThreadCtx)
    : Type 0 where
  pub new : IsNew ctx
  pub inited : ctx.inited ≡ true
  pub config : ctx.config ≡ wanted
  pub contexts : ctx.context_map ≡ []
  pub sinks : ctx.sinks ≡ []
  pub outcomes : List Outcome
  pub made : fs.create path ≡ created outcomes
  pub file : ctx.global_file ≡ new_file outcomes

Created-cases :
    (c : Created) → ((os : List Outcome) × (c ≡ created os)) ⊎ ((e : IoError) × (c ≡ refused e))
Created-cases (created os) = inl (os, refl)
Created-cases (refused e) = inr (e, refl)

abbrev Ready : FileSystem → LoggerConfig → Text → Type 0
Ready fs config path =
    (ctx : LoggerThreadCtx) × (init_logger fs config path none ≡ some ctx)
    × IsReady fs config path ctx

abbrev fresh : LoggerConfig → List Outcome → LoggerThreadCtx
fresh config os = record {
  config = config;
  log_queue = [];
  log_signal = false;
  flush_signal = false;
  inited = true;
  global_file = new_file os;
  context_map = [];
  sinks = [];
}

fresh-IsReady :
    (fs : FileSystem) (config : LoggerConfig) (path : Text) (os : List Outcome)
    → fs.create path ≡ created os
    → IsReady fs config path (fresh config os)
fresh-IsReady fs config path os made = record {
  new = record { queue = refl; file = refl };
  inited = refl;
  config = refl;
  contexts = refl;
  sinks = refl;
  outcomes = os;
  made = made;
  file = refl;
}

-- The first call of `init_logger` leaves a logger of its configuration, new and marked as
-- initialised, without contexts or sinks, which writes to the file made at its path, or it panics and leaves none, because a directory or the file could not be made.
pub init_logger-IsReady :
    (fs : FileSystem) (config : LoggerConfig) (path : Text)
    → Ready fs config path ⊎ ((init_logger fs config path none ≡ none) × Fails fs config path)
unfolding init_logger expect_new expect_init new init
init_logger-IsReady fs config path =
    elim (Option-cases (fs.create_dir_all config.context_log_path)) [
      | inr (e, failed) ↦ inr (ground arith, inl (e, failed))
      | inl fine ↦ elim (Option-cases (fs.parent path)) [
        | inl rootless ↦ elim (Created-cases (fs.create path)) [
          | inl (os, made) ↦
              inl (fresh config os, ground arith, fresh-IsReady fs config path os made)
          | inr (e, failed) ↦ inr (ground arith, inr (inr (e, failed)))
        ]
        | inr (parent, found) ↦ elim (Option-cases (fs.create_dir_all parent)) [
          | inr (e, failed) ↦ inr (ground arith, inr (inl (parent, e, found, failed)))
          | inl fine' ↦ elim (Created-cases (fs.create path)) [
            | inl (os, made) ↦
                inl (fresh config os, ground arith, fresh-IsReady fs config path os made)
            | inr (e, failed) ↦ inr (ground arith, inr (inr (e, failed)))
          ]
        ]
      ]
    ]
