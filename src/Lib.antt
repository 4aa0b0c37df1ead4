-- ===== src/Lib.antt =====
-- Nudge reviews the changes of a Git repository in a terminal: it captures a change, parses its
-- patch, shows it, keeps review threads on ranges of code, and lets a provider propose changes in
-- isolated workspaces. This library models the parts of it that decide: the values of the domain and
-- their lifecycles, the classifiers of files and links, the patch parser, the watcher and the
-- scheduler of refreshes, the reducer of operations, the projection of untrusted text, the cache of
-- highlighted files, and the arithmetic of the view and of capacity.
--
-- The parts, and the files that model them:
--
--   internal/domain/repository - Repo. Repo/Path (tree.go, snapshot.go): raw paths, kinds, object
--     identifiers. Repo/Mode (mode.go): Git modes and transitions. Repo/Hunk (diff.go): the lines
--     and hunks of a diff, with the validator that replays a hunk. Repo/Snapshot (snapshot.go).
--     Repo/Symlink (symlink.go): the lexical class of a link's target. Repo/Content
--     (content_class.go): the class of a file's bytes, at once and as a stream. Repo/TextBytes
--     (text.go): the exact evidence of a text, read as a stream. Repo/TextLines (text.go): its lines.
--     Repo/Rename (rename.go): the evidence of a rename. Repo/Digest: SHA-256.
--   internal/diff - Diff, the patch parser (parser.go, validate.go). Diff/Limits: the limits.
--     Diff/Quoted: paths that Git quotes. Diff/Header: the lines of a file header and of a hunk
--     header. Diff/Builder: the state of a section (`sectionBuilder`, `hunkBuilder`). Diff/Rows: the
--     lines of a hunk, the markers of a missing newline, and the end of a hunk. Diff/Records: the
--     records before a hunk. Diff/Section: `consume` and the loop over a section. The parser builds
--     the hunks that Repo/Hunk validates. Diff/Scanner: `patchScanner`, which cuts lines from chunks of
--     a source, and `readRange` and `hashRange`. What a source reads is a parameter; `Holds` says that
--     it holds a content, of which each read may give less than was asked for.
--   internal/domain/review - Review. Review/States (proposal_state.go): lifecycles of workspaces,
--     proposal versions, attempts and results. Review/Message (message.go), Review/Thread
--     (thread.go), Review/Anchor (anchor.go), with the enums of status.go. Review/Workspace and
--     Review/Intent (proposal.go). Anchors and proposals refer to snapshots of Repo.
--   internal/app/change_hints.go - Refresh: the watched set and the hints of the watcher, the reasons
--     (Refresh/Reasons), and the debounce scheduler (Refresh/Scheduler), which turns hints into
--     numbered refresh requests. Refresh/Calls: sequences of its calls.
--   internal/app/reducer.go, operation.go - Operations: the reducer that owns the map of operations.
--     Operations/Reducer: starting, replacing and cancelling operations. Operations/Handle: `Handle`,
--     by the commands and results. Operations/Runs: sequences of inputs. What the reducer reads of
--     the clock and the source of ids comes with each input.
--   internal/watch/fsnotify.go - Watch: the watcher that makes the hints of Refresh. Watch: its bounds
--     and its queue. Watch/Paths: `pathWithin`, with `filepath.Clean` and `filepath.Rel` on Unix.
--     Watch/Walk: the walk that watches the directories of a root. Watch/Events: `Start`, `Replace`
--     and the events of the backend. What the file system and the backend answer comes with each
--     step, and the parts of a call that hold the same lock are one step.
--   internal/presentation/terminal_text.go - Presentation: the projection of untrusted text, which
--     takes bytes and gives the runes of the text that is shown.
--   internal/tui/viewport - Viewport/Window (window.go) and Viewport/Budget (render_budget.go).
--   internal/capacity - Capacity (arithmetic.go).
--   internal/highlight - Cache (cache.go): the bounded cache of highlighted files.
--   Base holds what they share: bytes, UTF-8, `strings` and `strconv`, integers, results. Tests runs
--   the definitions at concrete inputs and applies each theorem to one.
--
-- How the code is read. An error is a value of a `Result`, with one constructor for each error
-- variable, and `invalid_state` for the errors that the enums make in place; the text that wraps an
-- error is left out. A method on a pointer is a function from the
-- value to the changed value, and the pointer is never nil. A string type with constants is a data
-- type with a constructor for each constant and one for every other string. A copy of a slice is
-- the slice. An `int` is an integer whose sums and differences are reduced to 64 bits where the
-- code can overflow; offsets and counts of the bytes of a patch are natural numbers, but for the
-- range that a caller asks for. A time is the
-- signed distance from the zero time. SHA-256 is a parameter (`Digest`), of which only the form of
-- its results is used: 64 hexadecimal digits.
--
-- Fuel. `decode_from` (Diff/Quoted), `take_runes` (Repo/Content), `text_lines` (Repo/TextLines),
-- `runes_from` (Presentation) and `evict` (Cache) recurse on fuel. Every round of the first four
-- passes over a byte, every round of the last removes an entry, and they are started with the number
-- of bytes or entries at least, so they do not stop for want of it. `next_from` (Diff/Scanner) has the
-- size of the source, the bytes of the buffer and two rounds more; a result of it is proved, so this
-- is enough. `range_from` has the length of the range and one round more, as every read gives a byte
-- or ends the loop; the same is proved of it. More fuel than there are bytes changes nothing in
-- `runes_from`. `format_uint` (Base/Text) has fuel above the number of digits.
--
-- Not modelled: databases, processes, files, the terminal and the provider's protocol, which are
-- effects of the system or calls of other code; and, of the modelled packages, the index of
-- patches, changed files, captures, proposed patches, the reconciliation of anchors, the goroutine
-- around the scheduler, and the commands of the reducer that only pass a request on.
pub mod Base
pub mod Viewport
pub mod Capacity
pub mod Repo
pub mod Diff
pub mod Review
pub mod Cache
mod Tests
pub mod Refresh
pub mod Operations
pub mod Watch
pub mod Presentation
