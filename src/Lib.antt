-- ===== src/Lib.antt =====
-- Verification of the Wrela compiler: its lexer, loader, constants, layouts, assembler and image writer, and the storage and
-- device formats.
--
-- The compiler ships Go reference implementations of the rules that its runtime sources follow:
-- the on-disk event format (compiler/storagefmt/format.go) and the NVMe rules
-- (compiler/nvmefmt/nvme.go). Both are translated here by hand, function by function, as are some
-- parts of the compiler itself.
--
-- Storage: a writer (`WriterPolicy`) groups events into atomic groups and batches, slots of 512
-- bytes carry one event each and a CRC32C, recovery reads the slots back after a crash and stops
-- at the first slot that is not part of a whole group, segments pack slots behind a sparse index,
-- and projections are replayed from the committed groups.
--   Storage/Slot.antt       EventSlotHeader, slotBytes, slotChecksum, isReservedEmptySlot
--   Storage/Recovery.antt   RecoverSlots; Recovery/Log.antt is the abstract log, with its own
--                           count of events and ids
--   Storage/Writer.antt     WriterPolicy, CommitToken, AcceptAdvance
--   Storage/FreeList.antt   FreeExtentList.Allocate and Free
--   Storage/Packing.antt    FinishBatch, PackSlots, FindSegmentForEventID
--   Storage/Regions.antt, Storage/Superblock.antt  ValidateRegions, ChooseSuperblock
--   Storage/Blob.antt       BlobTruth.AcceptRelocate, OrphanCollector
--   Storage/Directory.antt  DirectoryProjection.ApplyGroup
--   Storage/Streams.antt    StreamDirectory, StreamDirectoryCache
-- NVMe: a namespace is identified and gives a durability mode, data commands are built, and
-- completions are taken from a ring and acknowledge a durable request.
--   Nvme/Identify.antt      ParseIdentifyNamespace, ParseIdentifyController, SelectDurability
--   Nvme/Command.antt       buildDataCommand and the commands on top of it
--   Nvme/Completion.antt    CompletionQueue.Advance, DrainCompletions, ConsumeCompletion
--   Nvme/Durability.antt    DurabilityState
-- Compiler: the lexer makes tokens of a source, the record layout places fields, and the image
-- writer orders the sections of the generated code, gives them addresses and writes the file.
--   Lex.antt                All (compiler/lex/lexer.go), one step for each round of its loop
--   Lex/Tokens.antt         kinds and spellings (compiler/lex/token.go)
--   Lex/Utf8.antt, Lex/Scan.antt  runes, and the loops that read one token
--   Layout.antt             AlignUp, Compute, SizeAlign (compiler/layout/record.go)
--   Pecoff.antt             sections: order, addresses, sizes (compiler/pecoff/write.go)
--   Pecoff/Headers.antt, Pecoff/Relocs.antt, Pecoff/Efi.antt  headers, relocations, WriteEFI
-- Assembler: an assembly body is split into instructions, these are encoded in one pass, and the
-- displacements of the branches are written into the code afterwards.
--   Asm/Syntax.antt, Asm/Literal.antt, Asm/Parse.antt  ParseBody (compiler/asm/parse.go)
--   Asm.antt, Asm/Regs.antt  Operand, Instruction (compiler/asm/ast.go), the registers (regs.go)
--   Asm/Operands.antt, Asm/Moves.antt  ModRM, SIB, REX, and one function for each form
--   Asm/Forms.antt          the switch of encode (compiler/asm/encode.go)
--   Asm/Encode.antt         the loops of encode; Asm/Jumps.antt has the calls and jumps
-- An int64 is its two's complement, a number below 2^64. Asm/Memory.antt has a decoder of memory
-- operands that is written from the processor's rules.
-- Semantic checks: constant expressions are evaluated, with the sizes of types.
--   Const.antt              evalConstExpr (compiler/sem/const.go); Const/Rules.antt has the rules
--   Payload.antt            semanticSizeAlign and its helpers (compiler/sem/topic_payload.go)
--   Strings.antt            functions of Go's packages strings and unicode
--   Strconv.antt            ParseUint and ParseInt of Go's package strconv, for base 0
--   Arena.antt              arenas and their checks (compiler/sem/memory_graph.go);
--                           Arena/Siblings.antt says without the code which arenas collide
-- Topic.antt has the memory of topics and interrupt queues (compiler/codegen/topic_data.go and
-- interrupt_queue.go): sizes, places and first contents.
-- Loader.antt loads a module with its imports (loadModule of compiler/source/graph.go), and
-- Loader/Header.antt reads headers and searches modules (ExtractHeader, resolveModulePath,
-- LoadGraph); the file system is a parameter.
-- Types point to each other, so they stand in a store; the recursion over them runs on fuel, and one
-- more than the types of the store is enough, since each nested call visits another type. So does
-- the loader, where one more than the names of the modules is enough.
-- The tables of the package unicode are a parameter of the lexer and of the parser of assembly.
-- State is passed explicitly: a method on a pointer takes the record and returns the new one. Go
-- errors are values of a result type or `none`, a run-time panic is a value `panic`. Unsigned
-- integers are natural numbers with their wrap-around written out (add64, sub64, mul64, u16, u32);
-- where a theorem needs a number to fit its width that is a hypothesis. Maps are association lists
-- or lists without repetitions. Slices are lists.
--
-- Loops are structural recursion, but for the outer loop of RecoverSlots, which moves on by whole
-- groups and runs on fuel: the length of the slots is enough, since each round passes one at least.
-- The loops of the lexer and of the text functions pass a byte at a time, and count the bytes of the token at hand that are
-- still to be passed.
--
-- The proofs of the results below stand next to the models (Recovery/Refines.antt and so on), and
-- Tests/ applies each at a concrete input. Bytes.antt has the little-endian encoding
-- and CRC32C in the reflected form; Masks.antt has the laws of `&` with a mask of ones, low or high;
-- Prelude.antt has what all modules share.
--
-- Not modelled: the parser of the language, the type checker and the code generator, which work on the whole syntax
-- tree, and the parts that read and write files or start processes.
pub mod Arena
pub mod Asm
pub mod Bytes
pub mod Const
pub mod Layout
pub mod Lex
pub mod Loader
pub mod Masks
pub mod Nvme
pub mod Payload
pub mod Pecoff
pub mod Prelude
pub mod Storage
pub mod Strconv
pub mod Strings
pub mod Tests
pub mod Topic
