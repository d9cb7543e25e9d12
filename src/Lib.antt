-- ===== src/Lib.antt =====
-- A verification library for pgdesign, a compiler and migration tool for PostgreSQL schemas.
--
-- The program reads a schema from TOML, resolves it, checks its design, generates SQL and keeps a
-- chain of migrations. Two ideas carry the logic modelled here. The design checks reason on
-- functional dependencies: a table declares them, and closures, minimal covers and decompositions
-- are computed from them. The migrations form a graph: each edge leads from one revision to
-- another, a revision names the content of a whole model, and the tool has to find the heads, to
-- find the path that a database applies, to compose and to invert the steps on it, and to say how
-- dangerous each step is. The parts meet in the revisions: the path finder reads them in their
-- text form, follows the rebase remap and asks the kernel for the heads, and a squash enumerates the
-- paths of the path finder and is held to the composition and the inverses of the kernel. Around
-- these stand a topological sort, the graph of the foreign keys with the cascades of a delete, the
-- matching of the objects of two schemas, and the file format of split statements.
--
-- The parts and their files:
--
-- * Base and its children: native numbers, lists, texts, sorting and results. A Go string is a
--   `Text`, the list of its bytes, with the equality and the order of `==` and `<` on strings; a Go
--   map used as a set is a list read by `elem`; a pair of a value and an error is a `Result`, an
--   error or nil an `Option`. Decimal has strconv.Itoa and Atoi.
-- * Fd (internal/fd/fd.go): Sets has isSubset, contains, setUnion, setDifference and
--   setIntersection; Closure has Closure and IsSuperkey, proved in Closure/Grows, Flag and Fixpoint
--   against the derivations of Closure/Derives; Cover has MinimalCover, its steps 1 and 2 proved in
--   Cover/Reduced and its step 3 in Cover/Redundant; Design has projectFDs, IsLosslessJoin,
--   PreservesDependencies and IsPrime, proved in Design/Lossless and Design/Preserved.
-- * Rev (internal/rev/rev.go): Revision, its String, ParseRevision and Equal, with the hexadecimal
--   form that they use written out; proved in Rev/Roundtrip.
-- * Enc/Key (internal/enc/key.go): the manifest keys, Key.String, ParseKey and FunctionArgSig; proved
--   in Enc/Key/Roundtrip.
-- * Chain (internal/chain): Chain/Invert is invert.go, with the interface Op as the record `Ops` of
--   operations and Chain/Invert/Laws for its proofs; Chain/Edge is FindHeads, FindGenesis,
--   ComposePath and VerifyEdgeEndpoint of edge.go, proved in Chain/Edge/Heads, Chain/Edge/Compose
--   and Chain/Manifest/Closed; Chain/Manifest is manifest.go, proved in its children.
-- * PathFinder (internal/migrate/path_finder.go, and the edge of internal/migrate/chain_edge.go):
--   canon, findLiveHeads, reachable, allForwardPaths, choosePath and FindPath. Remap has the proofs
--   of canon, Reachable and Reachable/Search of the breadth-first search, Paths and its children of
--   the enumeration, Choice of the tie-break, Found and Found/Applied of FindPath as a whole.
-- * Objstore (internal/objstore/objstore.go): Put, Has and Get on the files under the root, which are
--   a list of paths with their bytes, the temp files of Put among them; each call of the file system
--   may fail, os.Remove too, as the record `Disk` says. That CreateTemp makes a file with a new name,
--   which is no object's, is a hypothesis. Objstore/Cases has the ways in which Put ends,
--   Objstore/Stored what Get reads of the files, and Objstore/Laws the results.
-- * Squash (internal/migrate/squash_chain.go): Endpoint has resolveSquashEndpoint; Squash itself has
--   findLiveConsolidationPath, checkConsolidationDisjoint, SquashChain up to the writing of files as
--   `squash_edge`, and classifyConsolidationDown. Squash/Range, Disjoint, Consolidated and Down have
--   the proofs.
-- * Semver (internal/migrate/semver.go): semverParts, compareSemver and InSemverRange; proved in
--   Semver/Laws, Semver/Reads and Semver/Order.
-- * Topo (internal/graph/topo.go): TopoSort and TopoSortStable. Queue, Start and Drain prove the loop
--   of the queue over a list of edges, Build, Names and Edges that the arrays are those of the
--   dependencies, Rest the items left over; Sorted, Stable and Placed have the results.
-- * Cascade (internal/model/fkgraph.go): BuildFKGraph, proved in Cascade/Graph; WalkCascade, proved
--   in Cascade/Simple and Cascade/Walk, CascadeChain in Cascade/Reached and Cascade/Chain, CascadeDepth in
--   Cascade/Depth; Cascade/Order has topoSort of internal/model/topo.go. The callback of WalkCascade
--   is replaced by the list of the paths that it gets.
-- * Diff/Match (internal/diff/match.go): truncateIdent, truncationCollisions, matchObjects and
--   matchObjectsTrunc; proved in its children.
-- * Splitfmt (internal/splitfmt/splitfmt.go): Encode and Decode, proved in Splitfmt/Roundtrip and,
--   against the grammar of the format, in Splitfmt/Line and Splitfmt/Grammar.
-- * Risk (internal/risk/risk.go and internal/pgcap/pgcap.go): the table of verdicts (Risk/Table),
--   the escalation and Classify (Risk), the server capabilities (Risk/Capability); proved in
--   Risk/Laws.
-- * The files called Tests run the code on small inputs and apply the theorems there.
--
-- State and loops. A loop that changes local variables passes them on: the pass of Closure carries
-- `result` and `changed`, the search of reachable its `visited` and `queue`, and the recursive
-- closure of allForwardPaths, which sets and clears a mark around each call, hands the marks down,
-- so that they are restored by themselves. A loop without a structural measure has fuel: Closure
-- one more than the number of texts on the right of the dependencies, since every pass but the last
-- finds a new one; reachable one more than the number of edges, since only the start and the edges'
-- targets are ever queued, each once; allForwardPaths the number of edges, since each is marked at
-- most once on the way down; canon the rounds that the code itself counts; TopoSort the number of
-- items, since an item enters the queue once; WalkCascade one more than the number of edges, since
-- no table is twice on a path.
--
-- Numbers of the program are natural numbers here: positions, lengths, row counts and server
-- versions are not negative where the code makes them, and no arithmetic on them gets near the
-- width of a machine word; where numbers are read from a text, Atoi's limit of 64 bits and its sign
-- are there. A remap and a manifest are association lists, and a Go map holds a key
-- once: where that matters it is a hypothesis. Sorting is by insertion, which gives what Go's sort
-- gives wherever equal elements are the same value.
--
-- Not modelled: SHA-256 (the ids of objects, edges and revisions), which enters as a parameter
-- where a definition reads an id, as filepath.Join and strings.EqualFold do; the reading and writing
-- of files, the database connection and the introspection, which are input and output; the
-- generation of SQL, which is text; the object encoders of internal/enc beyond the keys; of
-- internal/fd/fd.go the enumeration of candidate keys, the BCNF decomposition and the example
-- relations; of internal/diff everything but the matching; of internal/migrate everything but the
-- path finder, the squash and the order of the versions.
mod Base
pub mod Fd
pub mod Rev
pub mod Enc
pub mod Chain
pub mod Risk
pub mod PathFinder
pub mod Objstore
pub mod Diff
pub mod Splitfmt
pub mod Squash
pub mod Topo
pub mod Cascade
pub mod Semver
