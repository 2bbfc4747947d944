-- ===== src/Lib.antt =====
-- NodeBrain is an engine that watches cells. A cell is an object whose value may change: a
-- term, a condition, a formula. When a value changes the cell alerts the cells that subscribe
-- to it, and the reaction engine evaluates them by level until nothing changes any more.
-- Subscriptions and many other indexes are balanced trees. Timers alert cells at a time. Peers
-- exchange keys computed with very large integers. This library models these parts and proves
-- what the engine relies on.
--
-- The parts:
--
-- * Tree models lib/nbtree.c. A tree of nodes is the data type `Tree`; pointers to a place in
--   it are the steps that lead there. Tree/Path has the find and locate loops with the
--   comparison as a parameter, Tree/Keys their copies for addresses, strings and conditions,
--   Tree/Insert nbTreeInsert, Tree/Remove nbTreeRemove, and Tree/Rebuild nbTreeFlatten and
--   nbTreeBalance. Tree/Search, Tree/Insert/Place, Tree/Insert/Balance, Tree/Remove/Place,
--   Tree/Remove/Balance, Tree/Bounds and Tree/Keys/Order hold the theorems. A null pointer that
--   is followed is the result `none`.
-- * Cond models the operators of lib/nbcondition.c on values: Cond/Object the constants of
--   lib/nbobject.c, Cond/Eval the Boolean eval methods with their calls of nbAxonEnable and
--   nbAxonDisable, Cond/Rel the relational ones, Cond/Solve the solve methods, Cond/Enable the
--   calls of the enable and disable methods, Cond/Delay the state transition delays on top of
--   Clock/Timer, Cond/Reduce, Cond/Logic, Cond/Enable/Undo and Cond/Delay/Timed the theorems.
--   C's doubles are a type parameter with their comparisons.
-- * Cell models alerting, publication and reaction of lib/nbcell.c: Cell/Net nbCellAlert and
--   nbCellPublish, Cell/React nbCellReact, Cell/React/Store, Cell/React/Settle and
--   Cell/React/Finish the theorems. Eval methods are a parameter: a function of the values of
--   the cells. An eval method that enables or disables operands while it runs is outside this
--   model.
-- * Axon models the eval methods of lib/nbaxon.c, which serve all comparisons of a publisher
--   with constants: Axon itself evalAxonRelEq and evalAxonRelNe, with their theorems in
--   Axon/Switch, and Axon/Range evalAxonRelReal and the four string methods with their sweep of
--   a range of conditions. Axon/Range/Path, Axon/Range/Value, Axon/Range/Follow and
--   Axon/Range/Publish have the theorems on these. Constants are a type with a three-way
--   comparison, which excludes NaN.
-- * Clock models lib/nbclock.c: Clock/Timer nbClockSetTimer, Clock/Alert nbClockAlert,
--   Clock/Queue and Clock/Alert/Drain the theorems. Alarm methods, nbRuleReact and the system's
--   time are parameters. The nap is an int of 32 bits, which wraps.
-- * Vli models module/peer/nbvli.c: Vli/Word the representation, Vli/Inc, Vli/Add, Vli/Sub,
--   Vli/Mul, Vli/Half, Vli/Bytes and Vli/Size the operations, each with its theorems. A word is
--   below 65536 and the accumulators wrap at 2 ^ 32, as `unsigned int` does.
-- * Bfi models lib/nbbfi.c, the sets of time segments that schedules are computed with:
--   Bfi/Segment the representation, Bfi/Single and Bfi/Boolean the operations on one set,
--   Bfi/Pair those on two, Bfi/Index selection by position. Bfi/Depth reads a set as a
--   function: how many segments lie at a number. Bfi/Segment/Eval, Bfi/Segment/Unique,
--   Bfi/Single/Known, Bfi/Single/Until, Bfi/Boolean/Or, Bfi/Boolean/Ore, Bfi/Boolean/And,
--   Bfi/Boolean/Not, Bfi/Boolean/Xor, Bfi/Pair/Union, Bfi/Pair/Xor, Bfi/Pair/Overlap,
--   Bfi/Pair/Part, Bfi/Index/Bound and Bfi/Index/One hold the theorems. Times are natural
--   numbers, and the circular list is the list behind its domain segment.
-- * Hash models nbHashNew and nbHashGrow of lib/nbhash.c, with the theorem in Hash/Grow; Member
--   models listInsert, listInsertUnique and listRemove of lib/nblist.c, with the theorems in
--   Member/Unique. The sizes of hash tables are powers of 2, so that a mask is a remainder.
-- * Math models the eval methods of lib/nbmath.c, with the kind flags that they read and write;
--   C's arithmetic is a parameter. Math/Kind has the theorem.
-- * Rule models lib/nbrule.c. Rule/Plan has the instructions of a plan, struct NB_PLAN_...,
--   with their functions, and nbRuleEval; an address is a number of instructions. Rule/Compile
--   has the code that nbRuleParseStatement, nbRuleParseBody and nbRuleParsePlan make, of a tree
--   of statements in place of the text. Rule/Meaning says what a plan means without its code,
--   and which steps the code takes while the world changes between its pauses;
--   Rule/Meaning/Code has the instructions of single statements, Rule/Meaning/Run and
--   Rule/Meaning/Eval the theorems. A rule has ten loop counters, and an instruction with a
--   counter behind them has no result. Rule/Ready has the list of ready rules and its part of
--   nbRuleReact, Rule/Action the scheduled actions, their part of nbRuleReact, and alertRule
--   and destroyRule of lib/nbcondition.c. Rule/Ready/Turns, Rule/Action/Order,
--   Rule/Action/Invariant and Rule/Action/React have the theorems. What an action does,
--   assertions, commands and the reaction of the cells are parameters.
-- * Time models lib/nbtime.c on top of Bfi. A time condition is the tree of its operations;
--   operation is the call of tcdef->operation, cast is tcCast, and a function with parameters
--   or a plan is given by its intervals. Time/Calendar has the alignment and step routines over
--   localtime and mktime, which are parameters, with a theorem in Time/Calendar/Day;
--   Time/Calendar/Pattern the functions with parameters, with a theorem in
--   Time/Calendar/Pattern/Check, and Time/Calendar/Pattern/Complex tcComplex. Time/Simple has
--   the theorem on functions without parameters, Time/Cast the one on conditions, Time/Queue
--   tcQueueTrue, with the theorem in Time/Queue/Search.
-- * Prelude holds what the parts share: Boolean tests, lists, integers, bits.
--
-- Bounds and fuel. The recursion of the trees and of the large integers is structural. The
-- inner loop of nbCellReact runs over the list that a level had when the loop reached it, since
-- each round stores back the rest of that list. Its outer loop has fuel for the levels, and two
-- more than the highest level is enough. nbClockAlert has fuel for the seconds that it catches
-- up; the inner loop has as many rounds as the queue has timers, and one more. The sweep of an
-- axon visits a condition at most twice, and its fuel is twice the number of conditions and one
-- more. tcComplex has fuel for the rounds of each loop. tcSimple has as much fuel as there are
-- seconds from the first interval to the end of the domain, and the search of tcQueueTrue has
-- enough, with a 32-bit long, with as many rounds as there are seconds from the end to the
-- greatest time, and a few more. nbRuleEval, nbPlanAlign and the loops over ready rules have
-- fuel for their rounds, since a plan may loop for ever and a list may grow while it is worked
-- through; one more than the length of the list is enough where it does not.
--
-- Memory management (free lists, reference counts) is modelled only for timers. Word counts of
-- 65536 and more, which a 16-bit count cannot hold, are outside the model of the large
-- integers. Not modelled are the parser, the commands, streams, sockets, processes, pattern
-- matching and the loadable modules.
pub mod Axon
pub mod Bfi
pub mod Cell
pub mod Clock
pub mod Cond
pub mod Hash
pub mod Math
pub mod Member
pub mod Prelude
pub mod Rule
pub mod Time
pub mod Tree
pub mod Vli
