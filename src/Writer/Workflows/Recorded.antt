-- ===== src/Writer/Workflows/Recorded.antt =====
-- What `write_workflows` returns and what it leaves in the tree.
use postgres_dbre.Prelude.{
  ◌≡◌, ◌≢◌, refl, sym, ap, ◌∙◌, inl, inr, Bool, true, false, if◌then◌else◌, Bool-cases, Option,
  none, some, List, [], ◌∷◌, arith, nat_eq, list_eq,
}
use postgres_dbre.Prelude.Dict.{lookup, insert, lookup-insert, lookup-nil}
use postgres_dbre.Text.{Text}
use postgres_dbre.Os.{
  FilePath, Fs, Node, file, raw, directory, symlink, ok, ok_injective, Io, pure, ◌>>=◌, is_file,
  makedirs, open_and_write,
}
use postgres_dbre.Os.Laws.{open_and_write_elsewhere, bind_keeps, bind-ok}
use postgres_dbre.Os.Writes.{IsPut, makedirs_keeps, open_and_write-IsPut}
use postgres_dbre.Model.{Script, Workflow}
use postgres_dbre.Writer.{write_text, parent, relative_path}
use postgres_dbre.Writer.Json.{Host}
use postgres_dbre.Writer.Manifest.{Files}
use postgres_dbre.Writer.Workflows.{
  write_managed, check_external, script_path, write_script, write_scripts, write_workflow,
  write_each, write_index, write_workflows,
}

write_text_keeps :
    (p : FilePath) (m : Node) (path : FilePath) (content : Text) (fs : Fs)
    → p ≢ path
    → lookup p fs ≡ some m
    → lookup p (write_text path content fs).1 ≡ some m
unfolding write_text
write_text_keeps p m path content fs ne at =
    let above = makedirs_keeps p m (parent path) fs at in
    bind_keeps (λ (gs : Fs). lookup p gs ≡ some m) (makedirs (parent path)) _ fs above
      (λ _. open_and_write_elsewhere path content (makedirs (parent path) fs).1 p ne ∙ above)

write_text-IsPut :
    (path : FilePath) (content : Text) (fs : Fs)
    → (write_text path content fs).0 ≡ ok tt
    → IsPut content (lookup path (write_text path content fs).1)
unfolding write_text
write_text-IsPut path content fs h =
    let (a, made, whole) =
      bind-ok (makedirs (parent path)) (λ _. open_and_write path content) fs h in
    rw whole (open_and_write-IsPut path content (makedirs (parent path) fs).1 (rw whole at h))

same_text : Discrete Text
same_text = list_eq.dec

insert_same : (k v : Text) (d : Files) → lookup k (insert k v d) ≡ some v
insert_same k v d = rw lookup-insert (ground arith)

insert_other : (j k v : Text) (d : Files) → j ≢ k → lookup j (insert k v d) ≡ lookup j d
insert_other j k v d ne = rw lookup-insert (ground arith)

module _ (host : Host) where
  -- A file whose text has the digest, or a symbolic link, through which a write leaves the tree.
  abbrev pub Holds : Text → Option Node → Type 0
  Holds digest (some (file content)) = host.sha256 content ≡ digest
  Holds digest (some (symlink _)) = Unit
  Holds digest _ = ⊥

  -- What a recorded path and digest say of the tree.
  pub record IsWritten (fs : Fs) (relative digest : Text) : Type 0 where
    pub place : FilePath
    pub named : relative_path place ≡ relative
    pub held : Holds digest (lookup place fs)

  abbrev pub AreWritten : Files → Fs → Type 0
  AreWritten written fs =
      (relative digest : Text)
      → lookup relative written ≡ some digest
      → IsWritten fs relative digest

  IsPut-Holds : (content : Text) (n : Option Node) → IsPut content n → Holds (host.sha256 content) n
  IsPut-Holds content (some (file t)) e = ap host.sha256 (sym e)
  IsPut-Holds content (some (symlink opens)) e = tt
  IsPut-Holds content (some (raw t)) e = absurd e
  IsPut-Holds content (some directory) e = absurd e
  IsPut-Holds content none e = absurd e

  Holds-kept :
      (digest : Text) (n k : Option Node)
      → ((m : Node) → n ≡ some m → k ≡ some m)
      → Holds digest n
      → Holds digest k
  Holds-kept digest none k keeps h = absurd h
  Holds-kept digest (some m) k keeps h = rw (keeps m refl) h

  -- An action keeps the record of written files true, when it succeeds.
  abbrev Records : (Files → Io Files) → Type 0
  Records action =
      (written : Files) (fs : Fs) (next : Files)
      → AreWritten written fs
      → (action written fs).0 ≡ ok next
      → AreWritten next (action written fs).1

  Records-bind :
      (f g : Files → Io Files) → Records f → Records g → Records (λ written. f written >>= g)
  Records-bind f g rf rg written fs next held h =
      let (middle, first, whole) = bind-ok (f written) g fs h in
      rw whole (rg middle (f written fs).1 next (rf written fs middle held first) (rw whole at h))

  Records-pure : Records pure
  Records-pure written fs next held h = rw (sym (ok_injective h)) held

  Records-if :
      (test : Bool) (f g : Files → Io Files)
      → Records f
      → Records g
      → Records (λ written. if test then f written else g written)
  Records-if true f g rf rg = rf
  Records-if false f g rf rg = rg

  after_write :
      (path : FilePath) (content : Text) (written : Files) (fs : Fs)
      → AreWritten written fs
      → (write_text path content fs).0 ≡ ok tt
      → AreWritten
          (insert (relative_path path) (host.sha256 content) written)
          (write_text path content fs).1
  after_write path content written fs held ok_write relative digest at =
      elim (same_text relative (relative_path path)) [
        | yes same ↦
            let digest_is : host.sha256 content ≡ digest =
              cc (insert_same (relative_path path) (host.sha256 content) written, at, same) in
            record {
              place = path;
              named = sym same;
              held =
                  rw (sym digest_is)
                    (IsPut-Holds content _ (write_text-IsPut path content fs ok_write));
            }
        | no differ ↦
            let before =
              insert_other relative (relative_path path) (host.sha256 content) written differ in
            let old = held relative digest (sym before ∙ at) in
            record {
              place = old.place;
              named = old.named;
              held =
                  Holds-kept digest _ _
                    (λ m.
                      write_text_keeps old.place m path content fs
                        (λ e. differ (sym old.named ∙ ap relative_path e)))
                    old.held;
            }
      ]

  write_managed-Records :
      (path : FilePath) (content : Text) → Records (write_managed host path content)
  unfolding write_managed
  write_managed-Records path content written fs next held h =
      let rest =
        λ (_ : Unit {0}). pure (insert (relative_path path) (host.sha256 content) written) in
      let (a, first, whole) = bind-ok (write_text path content) rest fs h in
      rw (whole, sym (ok_injective (rw whole at h)))
        (after_write path content written fs held first)

  check_external-Records : (path : FilePath) → Records (check_external host path)
  check_external-Records path written fs next held h = elim (Bool-cases (is_file path fs)) [
    | inl e ↦ rw (e, sym (ok_injective (rw e at h))) held
    | inr e ↦ cc (rw e at h)
  ]

  write_script-Records : (wf : Workflow) (s : Script) → Records (write_script host wf s)
  unfolding write_script
  write_script-Records wf s =
      Records-if s.generator_managed _ _ (write_managed-Records (script_path wf s) _)
        (check_external-Records (script_path wf s))

  write_scripts-Records :
      (wf : Workflow) (scripts : List Script) → Records (write_scripts host wf scripts)
  unfolding write_scripts
  write_scripts-Records wf [] = Records-pure
  write_scripts-Records wf (s ∷ rest) =
      Records-bind (write_script host wf s) (write_scripts host wf rest) (write_script-Records wf s)
        (write_scripts-Records wf rest)

  write_workflow-Records : (wf : Workflow) → Records (write_workflow host wf)
  unfolding write_workflow
  write_workflow-Records wf =
      Records-bind _ _ (write_managed-Records _ _)
        (Records-bind _ _ (write_managed-Records _ _) (write_scripts-Records wf wf.scripts))

  write_each-Records : (workflows : List Workflow) → Records (write_each host workflows)
  unfolding write_each
  write_each-Records [] = Records-pure
  write_each-Records (wf ∷ rest) =
      Records-bind (write_workflow host wf) (write_each host rest) (write_workflow-Records wf)
        (write_each-Records rest)

  write_index-Records : (workflows : List Workflow) → Records (write_index host workflows)
  unfolding write_index
  write_index-Records [] = Records-pure
  write_index-Records (wf ∷ rest) = write_managed-Records _ _

  -- When `write_workflows` returns, every path that it returns has in the tree a file whose text has
  -- the digest that is returned for it, or a symbolic link, through which the text was written.
  pub write_workflows-AreWritten :
      (workflows : List Workflow) (fs : Fs) (written : Files)
      → (write_workflows host workflows fs).0 ≡ ok written
      → AreWritten written (write_workflows host workflows fs).1
  unfolding write_workflows
  write_workflows-AreWritten workflows fs written h =
      Records-bind (write_each host workflows) (write_index host workflows)
        (write_each-Records workflows) (write_index-Records workflows) [] fs written
        (λ relative digest at. cc (lookup-nil relative, at)) h
